-- ===== src/Ota/Handler/Queue.antt =====
-- How many updates the handler lets through, whatever the order of the requests and of the updater's
-- writes to the flag.
use edgehog_device_runtime.Base.{
  ℕ, ◌+◌, ◌≤◌, Bool, true, false, ◌||◌, not, Option, none, some, List, [], ◌∷◌, length, arith,
  if◌then◌else◌,
}
use edgehog_device_runtime.Ota.Handler.{
  OtaOperation, update, cancel, OtaRequest, OtaMessage, OtaHandler, handle_event,
}

-- A request comes in, or the updater writes the shared flag.
pub data Event : Type 0 where
  request : OtaRequest → Event
  write_flag : Bool → Event

unfoldable pub react : OtaHandler → Event → OtaHandler
react s (request r) = (handle_event s r).0
react s (write_flag b) = record s { flag = b }

unfoldable pub run : OtaHandler → List Event → OtaHandler
run s [] = s
run s (e ∷ es) = run (react s e) es

-- An event that can make room for another update: a request to cancel, or the flag turned off.
abbrev is_cancel : OtaOperation → Bool
is_cancel update = false
is_cancel cancel = true

abbrev pub frees : Event → ℕ
frees (request r) = if is_cancel r.operation then 1 else 0
frees (write_flag true) = 0
frees (write_flag false) = 1

pub freed : List Event → ℕ
freed [] = 0
freed (e ∷ es) = frees e + freed es

abbrev has_none : Option OtaMessage → Bool
has_none none = true
has_none (some _) = false

-- Whether an update would be let through now.
abbrev pub room : OtaHandler → ℕ
room s = if has_none s.current || not s.flag then 1 else 0

react-room :
    (s : OtaHandler) (e : Event)
    → length (react s e).queue + room (react s e) ≤ length s.queue + room s + frees e
unfolding react handle_event
react-room s (request r) = ground arith
react-room s (write_flag true) = ground arith
react-room s (write_flag false) = ground arith

-- One update more than there were events that made room is sent at most.
pub run-room :
    (s : OtaHandler) (es : List Event)
    → length (run s es).queue + room (run s es) ≤ length s.queue + room s + freed es
unfolding run freed
run-room s [] = omega arith
run-room s (e ∷ es) = omega (arith, react-room s e, run-room (react s e) es)
