-- ===== src/ExtNet.antt =====
-- The search for an address to listen on (extnet.go).
pub mod Found
use Prim.Native.Char.{code}
use Prim.Native.String
use mathlib.Core.List
use goppstats.Prelude.{
  ℕ, suc, ◌+◌, List, [], ◌∷◌, Bool, true, false, ◌&&◌, Option, none, some, ◌==◌, string_eq, nat_beq,
  ltb, leb, if◌then◌else◌,
}
use goppstats.Prelude.Result.{Result, ok, err, message, wrapped, ◌>>=◌}
use goppstats.Config.Read.{strip_prefix}

abbrev has_no_prefix : String.String → String.String → Bool
has_no_prefix p s = elim (strip_prefix p s) [ none ↦ true | some _ ↦ false ]

unfoldable pub is_external_interface : String.String → Bool
is_external_interface ifname = has_no_prefix "docker" ifname && has_no_prefix "lxdbr" ifname

-- `strings.Count(address, ":")`
unfoldable pub colons : String.String → ℕ
colons String.[] = 0
colons (String.◌∷◌ c s) = let rest = colons s in if nat_beq (code c) 58 then suc rest else rest

unfoldable pub is_ipv4 : String.String → Bool
is_ipv4 address = ltb (colons address) 2

unfoldable is_ipv6 : String.String → Bool
is_ipv6 address = leb 2 (colons address)

-- An address of an interface: `*net.IPNet`, `*net.IPAddr`, or of another type.
pub data Addr (Ip : Type 0) : Type 0 where
  ip_net ip_addr : Ip → Addr Ip
  other : Addr Ip

-- An interface, with the answer to `i.Addrs()`.
pub record Interface (Ip : Type 0) : Type 0 where
  pub name : String.String
  pub addrs : Result (List (Addr Ip))

-- `ip.String()` and `ip.IsGlobalUnicast()` are parameters.
module _ {Ip : Type 0} (to_text : Ip → String.String) (is_global_unicast : Ip → Bool) where
  unfoldable ip_of : Addr Ip → Option Ip
  ip_of (ip_net ip) = some ip
  ip_of (ip_addr ip) = some ip
  ip_of other = none

  -- The loop over the addresses, after those that were found.
  unfoldable add_ips : List (Addr Ip) → List Ip → List Ip
  unfolding ip_of
  add_ips [] ips = ips
  add_ips (addr ∷ rest) ips = elim (ip_of addr) [
    | none ↦ add_ips rest ips
    | some ip ↦ add_ips rest (if is_global_unicast ip then List.◌++◌ ips (ip ∷ []) else ips)
  ]

  -- The loop over the interfaces.
  unfoldable ips_of : List (Interface Ip) → List Ip → Result (List Ip)
  unfolding add_ips is_external_interface
  ips_of [] ips = ok ips
  ips_of (i ∷ rest) ips = elim (is_external_interface i.name) [
    | false ↦ ips_of rest ips
    | true ↦ elim i.addrs [
      | err e ↦ err (wrapped "failed to enumerate network addresses" e)
      | ok addrs ↦ ips_of rest (add_ips addrs ips)
    ]
  ]

  -- The interfaces are `net.Interfaces()`.
  unfoldable pub list_external_ips : Result (List (Interface Ip)) → Result (List Ip)
  unfolding ips_of
  list_external_ips (ok ifaces) = ips_of ifaces []
  list_external_ips (err e) = err (wrapped "failed to enumerate network interfaces" e)

  -- The first IPv4 address, or the empty text.
  unfoldable pub first_ipv4 : List Ip → String.String
  first_ipv4 [] = ""
  first_ipv4 (ip ∷ rest) =
      let later = first_ipv4 rest in if is_ipv4 (to_text ip) then to_text ip else later

  unfoldable pub listen_addr_of : List Ip → Result String.String
  unfolding first_ipv4
  listen_addr_of [] = err (message "no valid external IP addresses found")
  listen_addr_of (ip ∷ rest) =
      let found = first_ipv4 (ip ∷ rest) in ok (if found == "" then to_text ip else found)

  unfoldable pub find_external_addr : Result (List (Interface Ip)) → Result String.String
  unfolding list_external_ips listen_addr_of
  find_external_addr ifaces = elim (list_external_ips ifaces) [
    | err e ↦ err (wrapped "unable to list external IP addresses" e)
    | ok ips ↦ listen_addr_of ips
  ]
