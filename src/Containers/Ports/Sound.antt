-- ===== src/Containers/Ports/Sound.antt =====
-- What `parse_port_binding` returns, for every text that it accepts.
use edgehog_device_runtime.Base.{ℕ, ◌<◌, ◌≡◌, Option, none, some, [], ◌∷◌, ◌++◌, Result, ok, err}
use edgehog_device_runtime.Base.Text.{Text}
use edgehog_device_runtime.Containers.Ports.{
  ParsedBind, BindingError, bound, parse_u16, Split, port_and_proto,
}

abbrev pub IsPort : Option ℕ → Type 0
IsPort none = Unit
IsPort (some n) = n < bound

-- What stands before the rest: `ip:hostPort:`, `hostPort:`, `ip:` or nothing.
abbrev pub IsFront : Option Text → Option ℕ → Text → Type 0
IsFront none none front = front ≡ []
IsFront none (some n) front =
    (port : Text) × (front ≡ port ++ (b':' ∷ [])) × (parse_u16 port ≡ some n)
IsFront (some ip) none front = front ≡ ip ++ (b':' ∷ [])
IsFront (some ip) (some n) front =
    (port : Text) × (front ≡ ip ++ (b':' ∷ (port ++ (b':' ∷ [])))) × (parse_u16 port ≡ some n)

abbrev IsSplit : Text → Result BindingError Split → Type 0
IsSplit input (err e) = Unit
IsSplit input (ok (ip, n, rest)) =
    (front : Text) × (input ≡ front ++ rest) × IsFront ip n front × IsPort n

-- The text of a port, or of a port, `/` and a protocol.
abbrev pub IsContainer : Text → ℕ → Option Text → Type 0
IsContainer text n none = parse_u16 text ≡ some n
IsContainer text n (some proto) =
    (port : Text) × (text ≡ port ++ (b'/' ∷ proto)) × (parse_u16 port ≡ some n)

-- The input of a binding that is parsed: `front ++ port_proto`, with its ports that are `u16`.
abbrev pub IsParsed : Text → Result BindingError ParsedBind → Type 0
IsParsed input (err e) = Unit
IsParsed input (ok b) =
    (front : Text) × (input ≡ front ++ b.port_proto)
    × IsFront b.host.host_ip b.host.host_port front
    × IsContainer b.port_proto b.port b.proto
    × IsPort b.host.host_port
    × (b.port < bound)

abbrev port_text : Text → Option (Text × Text) → Text
port_text rest o = (port_and_proto rest o).0
