-- ===== src/Containers/Ports.antt =====
-- The port bindings of a container: `parse_port_binding` and `parse_host_ip_port` of
-- edgehog-device-runtime-containers/src/requests/container.rs. Texts are lists of code points.
pub mod RoundTrip
pub mod Sound
mod Tests
use edgehog_device_runtime.Base.{ℕ, String, Option, none, some, ◌∷◌, ◌++◌, Result, ok, err}
use edgehog_device_runtime.Base.Text.{Text, split_once, parse_unsigned}

pub record Binding : Type 0 where
  pub host_ip : Option Text
  pub host_port : Option ℕ

pub record ParsedBind : Type 0 where
  pub port_proto : Text
  pub port : ℕ
  pub proto : Option Text
  pub host : Binding

-- `BindingError::Port`, without the error of the number
pub data BindingError : Type 0 where
  port_error : String → Text → BindingError

-- one over the largest `u16`
abbrev pub bound : ℕ
bound = 65536

unfoldable pub parse_u16 : Text → Option ℕ
parse_u16 text = parse_unsigned bound text

abbrev pub Split : Type 0
Split = Option Text × Option ℕ × Text

-- of an ip, a port and the rest
unfoldable pub ip_and_port : Text → Text → Text → Option ℕ → Result BindingError Split
ip_and_port ip port rest none = err (port_error "host" port)
ip_and_port ip port rest (some n) = ok (some ip, some n, rest)

-- of one part and the rest: a port if it is a number
unfoldable pub ip_or_port : Text → Text → Option ℕ → Result BindingError Split
ip_or_port part rest (some n) = ok (none, some n, rest)
ip_or_port part rest none = ok (some part, none, rest)

unfoldable pub split_rest : Text → Text → Option (Text × Text) → Result BindingError Split
split_rest part rest (some (port, last)) = ip_and_port part port last (parse_u16 port)
split_rest part rest none = ip_or_port part rest (parse_u16 part)

unfoldable pub split_host : Text → Option (Text × Text) → Result BindingError Split
split_host input none = ok (none, none, input)
split_host input (some (part, rest)) = split_rest part rest (split_once b':' rest)

unfoldable pub parse_host_ip_port : Text → Result BindingError Split
parse_host_ip_port input = split_host input (split_once b':' input)

-- the container's port and its protocol
abbrev pub port_and_proto : Text → Option (Text × Text) → Text × Option Text
port_and_proto rest none = (rest, none)
port_and_proto rest (some (port, proto)) = (port, some proto)

unfoldable pub bind_of :
    Option Text → Option ℕ → Text → Text × Option Text → Option ℕ → Result BindingError ParsedBind
bind_of ip host_port rest (port, proto) none = err (port_error "container" port)
bind_of ip host_port rest (port, proto) (some n) = ok (record {
  port_proto = rest;
  port = n;
  proto = proto;
  host = record { host_ip = ip; host_port = host_port };
})

unfoldable pub parse_container : Result BindingError Split → Result BindingError ParsedBind
parse_container (err e) = err e
parse_container (ok (ip, host_port, rest)) =
    let parts = port_and_proto rest (split_once b'/' rest) in
    bind_of ip host_port rest parts (parse_u16 parts.0)

unfoldable pub parse_port_binding : Text → Result BindingError ParsedBind
parse_port_binding input = parse_container (parse_host_ip_port input)
