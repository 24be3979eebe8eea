-- ===== src/Examples/Addresses.antt =====
-- A host with a container's bridge and an interface of both families.
use goppstats.Prelude.{
  String, List, [], ◌∷◌, Bool, true, false, ◌≡◌, refl, ◌⊎◌, ◌==◌, string_eq, map, In, All,
}
use goppstats.Prelude.Result.{ok}
use goppstats.Config.Read.{strip_prefix}
use goppstats.ExtNet.{
  Interface, ip_net, is_ipv4, colons, is_external_interface, list_external_ips, find_external_addr,
  listen_addr_of, first_ipv4,
}
use goppstats.ExtNet.Found.{find_external_addr-preferred}

-- An address, by whether it is the IPv4 one.
abbrev to_text : Bool → String
to_text true = "10.0.0.1"
to_text false = "2001:db8::1"

abbrev any : Bool → Bool
any _ = true

abbrev ifaces : List (Interface Bool)
ifaces =
    record { name = "docker0"; addrs = ok (ip_net true ∷ []) }
    ∷ record { name = "eth0"; addrs = ok (ip_net false ∷ ip_net true ∷ []) }
    ∷ []

printed : (ip : Bool) → (to_text ip == "") ≡ false
printed true = refl
printed false = refl

find_external_addr-preferred_example :
    (ips : List Bool) × (list_external_ips to_text any (ok ifaces) ≡ ok ips)
    × In "10.0.0.1" (map to_text ips)
    × ((is_ipv4 "10.0.0.1" ≡ true) ⊎ All (λ ip. is_ipv4 (to_text ip) ≡ false) ips)
unfolding find_external_addr list_external_ips is_external_interface listen_addr_of first_ipv4
    is_ipv4 colons strip_prefix
find_external_addr-preferred_example =
    find_external_addr-preferred to_text any (ok ifaces) "10.0.0.1" printed refl
