-- ===== src/Containers/Ports/RoundTrip.antt =====
-- The form `[ip:[hostPort:]]containerPort[/protocol]` of a port binding, and what is parsed from it.
use edgehog_device_runtime.Base.{ℕ, ◌<◌, ◌≡◌, refl, true, Option, none, some, ◌∷◌, ◌++◌, ok}
use edgehog_device_runtime.Base.Text.{
  Text, decimal, lacks, split_once-append, split_once-lacks, lacks-append, decimal-lacks,
  parse_unsigned-decimal,
}
use edgehog_device_runtime.Containers.Ports.{
  ParsedBind, bound, parse_u16, ip_and_port, ip_or_port, split_rest, split_host, parse_host_ip_port,
  bind_of, parse_container, parse_port_binding,
}

-- a container's port as it is printed
abbrev pub print_port : ℕ → Option Text → Text
print_port n none = decimal n
print_port n (some proto) = decimal n ++ (b'/' ∷ proto)

abbrev pub print_host : Option Text → Option ℕ → Text → Text
print_host none none rest = rest
print_host none (some n) rest = decimal n ++ (b':' ∷ rest)
print_host (some ip) none rest = ip ++ (b':' ∷ rest)
print_host (some ip) (some n) rest = ip ++ (b':' ∷ (decimal n ++ (b':' ∷ rest)))

abbrev pub print : Option Text → Option ℕ → ℕ → Option Text → Text
print ip host_port n proto = print_host ip host_port (print_port n proto)

abbrev pub IsProto : Option Text → Type 0
IsProto none = Unit
IsProto (some proto) = lacks b':' proto ≡ true

-- An ip has no colon, and is no number if no port comes with it. A port is a `u16`.
abbrev pub IsHost : Option Text → Option ℕ → Type 0
IsHost none none = Unit
IsHost none (some n) = n < bound
IsHost (some ip) none = (lacks b':' ip ≡ true) × (parse_u16 ip ≡ none)
IsHost (some ip) (some n) = (lacks b':' ip ≡ true) × (n < bound)

print_port-lacks :
    (n : ℕ) (proto : Option Text) → IsProto proto → lacks b':' (print_port n proto) ≡ true
print_port-lacks n none h = decimal-lacks b':' n refl
print_port-lacks n (some proto) h =
    lacks-append b':' (decimal n) (b'/' ∷ proto) (decimal-lacks b':' n refl) (unfold lacks in h)

u16-decimal : (n : ℕ) → n < bound → parse_u16 (decimal n) ≡ some n
unfolding parse_u16
u16-decimal n h = parse_unsigned-decimal bound n h

host-print :
    (ip : Option Text) (host_port : Option ℕ) (rest : Text)
    → IsHost ip host_port
    → lacks b':' rest ≡ true
    → parse_host_ip_port (print_host ip host_port rest) ≡ ok (ip, host_port, rest)
unfolding parse_host_ip_port split_host split_rest ip_and_port ip_or_port
host-print none none rest h k = rw (split_once-lacks b':' rest k) refl
host-print none (some n) rest h k =
    rw
      (
        split_once-append b':' (decimal n) rest (decimal-lacks b':' n refl),
        split_once-lacks b':' rest k,
        u16-decimal n h,
      )
      refl
host-print (some ip) none rest (h, word) k =
    rw (split_once-append b':' ip rest h, split_once-lacks b':' rest k, word) refl
host-print (some ip) (some n) rest (h, l) k =
    rw
      (
        split_once-append b':' ip (decimal n ++ (b':' ∷ rest)) h,
        split_once-append b':' (decimal n) rest (decimal-lacks b':' n refl),
        u16-decimal n l,
      )
      refl

abbrev pub parsed : Option Text → Option ℕ → ℕ → Option Text → ParsedBind
parsed ip host_port n proto = record {
  port_proto = print_port n proto;
  port = n;
  proto = proto;
  host = record { host_ip = ip; host_port = host_port };
}

container-print :
    (ip : Option Text) (host_port : Option ℕ) (n : ℕ) (proto : Option Text)
    → n < bound
    → parse_container (ok (ip, host_port, print_port n proto)) ≡ ok (parsed ip host_port n proto)
unfolding parse_container bind_of
container-print ip host_port n none l =
    rw (split_once-lacks b'/' (decimal n) (decimal-lacks b'/' n refl), u16-decimal n l) refl
container-print ip host_port n (some proto) l =
    rw (split_once-append b'/' (decimal n) proto (decimal-lacks b'/' n refl), u16-decimal n l) refl

-- A binding that is printed in the documented form is parsed as itself: an ip without a colon, which is
-- no number where it stands alone, a host port and a container port that are `u16`, and a protocol
-- without a colon, each but the container port optional.
pub parse_port_binding-print :
    (ip : Option Text) (host_port : Option ℕ) (n : ℕ) (proto : Option Text)
    → IsHost ip host_port
    → n < bound
    → IsProto proto
    → parse_port_binding (print ip host_port n proto) ≡ ok (parsed ip host_port n proto)
unfolding parse_port_binding
parse_port_binding-print ip host_port n proto h l p =
    rw (host-print ip host_port (print_port n proto) h (print_port-lacks n proto p))
      (container-print ip host_port n proto l)
