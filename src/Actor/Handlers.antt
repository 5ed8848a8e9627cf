-- ===== src/Actor/Handlers.antt =====
-- The handlers of an actor.
use executors.Base.{
  ℕ, zero, suc, ◌==◌, ◌≡◌, refl, List, [], ◌∷◌, ◌&&◌, if◌then◌else◌, Option, none, some, arith,
}
use executors.Actor.{
  same_type, is_function, Handler, MessageType, address_type, int_type, Function, init_handler,
  token_handler, Message, address, token, Member, Send, erase_first, deregister_handler, init,
  pass_token, call_each, call_handler, new_member, register_handler,
}

-- No handler is ever deregistered: `deregister_handler` looks for the type of `message_handler<Message>`,
-- and a handler tells the type of its message.
pub deregister_handler_lem :
    (t : MessageType) (mf : Function) (handlers : List Handler)
    → deregister_handler t mf handlers ≡ handlers
unfolding deregister_handler erase_first
deregister_handler_lem t mf [] = refl
deregister_handler_lem t mf (h ∷ handlers) = ground (arith, deregister_handler_lem t mf handlers)

-- How many of the handlers are for this function and this type of message.
unfoldable pub number_of : MessageType → Function → List Handler → ℕ
number_of t mf [] = 0
number_of t mf (h ∷ handlers) =
    if same_type h.message t && is_function mf h
    then suc (number_of t mf handlers)
    else number_of t mf handlers

unfoldable pub copies : ℕ → Send → List Send
copies zero s = []
copies (suc n) s = s ∷ copies n s

-- What comes of a message to a member with these handlers: no defined run, or the sends.
unfoldable pub answer : List Handler → Message → Member → Option (Member × List Send)
unfolding number_of copies
answer handlers (address a) m =
    if number_of address_type init_handler handlers == 0 then some (m, []) else none
answer handlers (token zero) m =
    let back : Send = record { to = m.caller; message = token zero } in
    some (m, copies (number_of int_type token_handler handlers) back)
answer handlers (token (suc t)) m =
    let on : Send = record { to = m.next; message = token t } in
    some (m, copies (number_of int_type token_handler handlers) on)

call_each-answer :
    (msg : Message) (handlers : List Handler) (from : ℕ) (m : Member)
    → call_each handlers msg from m ≡ answer handlers msg m
unfolding call_each answer number_of copies init pass_token
call_each-answer (address a) [] from m = refl
call_each-answer (token zero) [] from m = refl
call_each-answer (token (suc t)) [] from m = refl
call_each-answer (address a) (h ∷ handlers) from m =
    ground (arith, call_each-answer (address a) handlers from m)
call_each-answer (token zero) (h ∷ handlers) from m =
    ground (arith, call_each-answer (token zero) handlers from m)
call_each-answer (token (suc t)) (h ∷ handlers) from m =
    ground (arith, call_each-answer (token (suc t)) handlers from m)

-- A call of the handlers with a token sends it on once for each registration of `token_handler`: to the next member
-- with one less, or to the caller if it is used up. A call with an address has no defined run if `init_handler` is
-- registered for addresses, as it is for every new member: that function appends to the vector of handlers,
-- over which the loop runs that has called it.
pub call_handler_lem :
    (msg : Message) (from next caller : ℕ) (m : Member)
    → (call_handler msg from m ≡ answer m.handlers msg m)
      × (call_handler (address next) from (new_member next caller) ≡ none)
unfolding call_handler new_member register_handler answer number_of
call_handler_lem msg from next caller m = (
  call_each-answer msg m.handlers from m,
  call_each-answer (address next) (new_member next caller).handlers from (new_member next caller),
)
