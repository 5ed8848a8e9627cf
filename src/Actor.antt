-- ===== src/Actor.antt =====
-- src/examples/executor/actor.cpp: actors, which call the handlers that are registered for the type of a
-- message, and the members of its ring, which are to hand tokens on.
pub mod Handlers
use executors.Base.{
  Option, none, some, ℕ, zero, suc, List, [], ◌∷◌, ◌++◌, Bool, true, false, if◌then◌else◌,
}

-- The types of the messages, and their `type_info`, with that of `message_handler<Message>`.
pub data MessageType : Type 0 where
  address_type : MessageType
  int_type : MessageType

pub data TypeInfo : Type 0 where
  message_type : MessageType → TypeInfo
  message_handler_type : MessageType → TypeInfo

abbrev pub same_type : MessageType → MessageType → Bool
same_type address_type address_type = true
same_type address_type int_type = false
same_type int_type address_type = false
same_type int_type int_type = true

abbrev pub same_info : TypeInfo → TypeInfo → Bool
same_info (message_type s) (message_type t) = same_type s t
same_info (message_type s) (message_handler_type t) = false
same_info (message_handler_type s) (message_type t) = false
same_info (message_handler_type s) (message_handler_type t) = same_type s t

-- The addresses of actors are numbers. A token is not negative.
pub data Message : Type 0 where
  address : ℕ → Message
  token : ℕ → Message

abbrev pub type_of : Message → MessageType
type_of (address a) = address_type
type_of (token t) = int_type

-- The member functions that a `member` registers.
pub data Function : Type 0 where
  init_handler : Function
  token_handler : Function

abbrev pub same_function : Function → Function → Bool
same_function init_handler init_handler = true
same_function init_handler token_handler = false
same_function token_handler init_handler = false
same_function token_handler token_handler = true

-- A `mf_message_handler`.
pub record Handler : Type 0 where
  pub message : MessageType
  pub function : Function

abbrev pub message_id : Handler → TypeInfo
message_id h = message_type h.message

abbrev pub is_function : Function → Handler → Bool
is_function mf h = same_function mf h.function

unfoldable pub register_handler : MessageType → Function → List Handler → List Handler
register_handler t mf handlers = handlers ++ record { message = t; function = mf } ∷ []

-- The loop of `deregister_handler`, with the `type_info` that it looks for.
unfoldable pub erase_first : TypeInfo → Function → List Handler → List Handler
erase_first id mf [] = []
erase_first id mf (h ∷ handlers) =
    let others = erase_first id mf handlers in
    if same_info (message_id h) id
    then (if is_function mf h then handlers else h ∷ others)
    else h ∷ others

unfoldable pub deregister_handler : MessageType → Function → List Handler → List Handler
unfolding erase_first
deregister_handler t mf handlers = erase_first (message_handler_type t) mf handlers

pub record Member : Type 0 where
  pub handlers : List Handler
  pub next : ℕ
  pub caller : ℕ

-- The constructor of `member` leaves the addresses open.
unfoldable pub new_member : ℕ → ℕ → Member
unfolding register_handler
new_member next caller = record {
  handlers = register_handler address_type init_handler [];
  next = next;
  caller = caller;
}

pub record Send : Type 0 where
  pub to : ℕ
  pub message : Message

-- A message of another type does not get to the function.
unfoldable pub init : Message → ℕ → Member → Member
unfolding register_handler deregister_handler
init (token t) from m = m
init (address next) from m = record {
  handlers =
      deregister_handler address_type init_handler
        (register_handler int_type token_handler m.handlers);
  next = next;
  caller = from;
}

-- What `token_handler` sends.
unfoldable pub pass_token : Message → Member → List Send
pass_token (address a) m = []
pass_token (token zero) m = record { to = m.caller; message = token zero } ∷ []
pass_token (token (suc t)) m = record { to = m.next; message = token t } ∷ []

abbrev pub handle_message : Function → Message → ℕ → Member → Member
handle_message init_handler msg from m = init msg from m
handle_message token_handler msg from m = m

abbrev pub sends_of : Function → Message → Member → List Send
sends_of init_handler msg m = []
sends_of token_handler msg m = pass_token msg m

-- Whether a function changes the vector of handlers.
abbrev pub changes_handlers : Function → Message → Bool
changes_handlers init_handler (address next) = true
changes_handlers init_handler (token t) = false
changes_handlers token_handler msg = false

-- What one call sends, before what the rest of the loop does.
abbrev pub send_before : List Send → Option (Member × List Send) → Option (Member × List Send)
send_before first none = none
send_before first (some (m, sends)) = some (m, first ++ sends)

-- The loop of `call_handler`, from an element of the vector on; the sends are in order. `none` is the end of a
-- defined run: an element that is added or erased during the loop makes the iterators of the loop invalid,
-- which it then increments and compares.
unfoldable pub call_each : List Handler → Message → ℕ → Member → Option (Member × List Send)
unfolding init pass_token
call_each [] msg from m = some (m, [])
call_each (h ∷ handlers) msg from m =
    if same_info (message_id h) (message_type (type_of msg))
    then (if changes_handlers h.function msg
        then none
        else send_before (sends_of h.function msg m)
            (call_each handlers msg from (handle_message h.function msg from m)))
    else call_each handlers msg from m

unfoldable pub call_handler : Message → ℕ → Member → Option (Member × List Send)
unfolding call_each
call_handler msg from m = call_each m.handlers msg from m
