-- ===== src/ExtNet/Found.antt =====
-- Which address is found.
use Prim.Native.String.{String}
use goppstats.Prelude.{
  List, [], ◌∷◌, Bool, true, false, ◌==◌, string_eq, ◌≡◌, sym, subst, ◌⊎◌, inl, inr, refl, arith,
  map, In, All, Bool-cases,
}
use goppstats.Prelude.Result.{Result, ok, Result-cases}
use goppstats.ExtNet.{
  Interface, is_ipv4, list_external_ips, first_ipv4, listen_addr_of, find_external_addr,
}

module _ {Ip : Type 0} (to_text : Ip → String) (is_global_unicast : Ip → Bool) where
  -- No address has the empty text.
  abbrev IsPrinted : Type 0
  IsPrinted = (ip : Ip) → (to_text ip == "") ≡ false

  first_ipv4-cases :
      (ips : List Ip)
      → IsPrinted
      → ((first_ipv4 to_text is_global_unicast ips ≡ "")
          × All (λ ip. is_ipv4 (to_text ip) ≡ false) ips)
        ⊎ (In (first_ipv4 to_text is_global_unicast ips) (map to_text ips)
            × (is_ipv4 (first_ipv4 to_text is_global_unicast ips) ≡ true))
  unfolding first_ipv4
  first_ipv4-cases [] printed = inl (refl, tt)
  first_ipv4-cases (ip ∷ rest) printed = elim (Bool-cases (is_ipv4 (to_text ip))) [
    | inl q ↦ inr (inl (ground (arith, q)), ground (arith, q))
    | inr q ↦ elim (first_ipv4-cases rest printed) [
      | inl (e, a) ↦ inl (ground (arith, q, e), (q, a))
      | inr (m, v) ↦
          let same : first_ipv4 to_text is_global_unicast (ip ∷ rest)
              ≡ first_ipv4 to_text is_global_unicast rest =
            ground (arith, q) in
          inr (
            inr (subst (λ x. In x (map to_text rest)) (sym same) m),
            subst (λ x. is_ipv4 x ≡ true) (sym same) v,
          )
    ]
  ]

  printed_of_In :
      (ips : List Ip) (a : String) → IsPrinted → In a (map to_text ips) → (a == "") ≡ false
  printed_of_In [] a printed m = elim m [ ]
  printed_of_In (ip ∷ rest) a printed (inl p) = ground (arith, p, printed ip)
  printed_of_In (ip ∷ rest) a printed (inr m) = printed_of_In rest a printed m

  listen_addr_of-preferred :
      (ips : List Ip) (addr : String)
      → IsPrinted
      → listen_addr_of to_text is_global_unicast ips ≡ ok addr
      → In addr (map to_text ips)
        × ((is_ipv4 addr ≡ true) ⊎ All (λ ip. is_ipv4 (to_text ip) ≡ false) ips)
  unfolding listen_addr_of
  listen_addr_of-preferred [] addr printed e = let no : ⊥ = ground (arith, e) in elim no [ ]
  listen_addr_of-preferred (ip ∷ rest) addr printed e =
      let found = first_ipv4 to_text is_global_unicast (ip ∷ rest) in
      elim (Bool-cases (found == "")) [
        | inl q ↦
            let same : addr ≡ to_text ip = ground (arith, q, e) in
            elim (first_ipv4-cases (ip ∷ rest) printed) [
              | inl (_, a) ↦ (inl same, inr a)
              | inr (m, v) ↦
                  let no : ⊥ = ground (arith, q, printed_of_In (ip ∷ rest) found printed m) in
                  elim no [ ]
            ]
        | inr q ↦
            let same : addr ≡ found = ground (arith, q, e) in
            elim (first_ipv4-cases (ip ∷ rest) printed) [
              | inl (x, a) ↦
                  let no : ⊥ = ground (arith, q, x, string_eq.beq_iff found "") in elim no [ ]
              | inr (m, v) ↦ (
                subst (λ x. In x (map to_text (ip ∷ rest))) (sym same) m,
                inl (subst (λ x. is_ipv4 x ≡ true) (sym same) v),
              )
            ]
      ]

  -- If no address has the empty text, then the address that is found is the text of one of the external
  -- addresses, and is an IPv4 address unless there is none among them.
  pub find_external_addr-preferred :
      (ifaces : Result (List (Interface Ip))) (addr : String)
      → IsPrinted
      → find_external_addr to_text is_global_unicast ifaces ≡ ok addr
      → (ips : List Ip) × (list_external_ips to_text is_global_unicast ifaces ≡ ok ips)
        × In addr (map to_text ips)
        × ((is_ipv4 addr ≡ true) ⊎ All (λ ip. is_ipv4 (to_text ip) ≡ false) ips)
  unfolding find_external_addr
  find_external_addr-preferred ifaces addr printed e =
      elim (Result-cases (list_external_ips to_text is_global_unicast ifaces)) [
        | inr (x, q) ↦ let no : ⊥ = ground (arith, q, e) in elim no [ ]
        | inl (ips, q) ↦
            let (m, p) = listen_addr_of-preferred ips addr printed (ground (arith, q, e)) in
            (ips, q, m, p)
      ]
