-- ===== src/Examples/Actors.antt =====
-- A new member, and one that hands tokens on twice.
use executors.Base.{◌≡◌, [], ◌∷◌, none}
use executors.Actor.{
  int_type, token_handler, address, token, Handler, Member, new_member, deregister_handler,
  call_handler,
}
use executors.Actor.Handlers.{answer, deregister_handler_lem, call_handler_lem}

abbrev on_token : Handler
on_token = record { message = int_type; function = token_handler }

abbrev twice : Member
twice = record { handlers = on_token ∷ on_token ∷ []; next = 5; caller = 6 }

call_handler_lem_example :
    (call_handler (token 3) 0 twice ≡ answer twice.handlers (token 3) twice)
    × (call_handler (address 8) 0 (new_member 8 9) ≡ none)
call_handler_lem_example = call_handler_lem (token 3) 0 8 9 twice

deregister_handler_lem_example :
    deregister_handler int_type token_handler twice.handlers ≡ twice.handlers
deregister_handler_lem_example = deregister_handler_lem int_type token_handler twice.handlers
