-- ===== src/Containers/Ports/Tests.antt =====
-- The theorems on port bindings at concrete inputs, and runs of the model.
use edgehog_device_runtime.Base.{◌≡◌, refl, arith, none, some, [], ◌∷◌, ok, err}
use edgehog_device_runtime.Base.Text.{Text, split_once, parse_unsigned, read_digits, lacks}
use edgehog_device_runtime.Containers.Ports.{
  port_error, parse_u16, ip_and_port, split_rest, split_host, parse_host_ip_port, bind_of,
  parse_container, parse_port_binding,
}
use edgehog_device_runtime.Containers.Ports.RoundTrip.{print, parsed, parse_port_binding-print}

-- `1.1.1.1`
abbrev ip : Text
ip = b'1' ∷ b'.' ∷ b'1' ∷ b'.' ∷ b'1' ∷ b'.' ∷ b'1' ∷ []

-- `udp`
abbrev udp : Text
udp = b'u' ∷ b'd' ∷ b'p' ∷ []

-- `090`, which keeps its zero
abbrev padded : Text
padded = b'0' ∷ b'9' ∷ b'0' ∷ []

parses_padded :
    parse_port_binding padded
    ≡ ok (record {
      port_proto = padded;
      port = 90;
      proto = none;
      host = record { host_ip = none; host_port = none };
    })
unfolding parse_port_binding parse_container parse_host_ip_port split_host split_once bind_of
    parse_u16 parse_unsigned read_digits
parses_padded = refl

-- `[::1]:80:90`
refuses_ipv6 :
    parse_port_binding
      (b'[' ∷ b':' ∷ b':' ∷ b'1' ∷ b']' ∷ b':' ∷ b'8' ∷ b'0' ∷ b':' ∷ b'9' ∷ b'0' ∷ [])
    ≡ err (port_error "host" [])
unfolding parse_port_binding parse_container parse_host_ip_port split_host split_rest ip_and_port
    split_once bind_of parse_u16 parse_unsigned read_digits
refuses_ipv6 = refl

parse_port_binding-print_example :
    parse_port_binding (print (some ip) (some 80) 90 (some udp))
    ≡ ok (parsed (some ip) (some 80) 90 (some udp))
unfolding lacks
parse_port_binding-print_example =
    parse_port_binding-print (some ip) (some 80) 90 (some udp) (refl, omega arith) (omega arith)
      refl
