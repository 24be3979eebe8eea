-- ===== src/Api/Client/Cancelled.antt =====
-- The client while a clock runs, and once no request is answered, as its context is cancelled.
use Prim.Native.String.{◌++◌}
use goppstats.Prelude.{
  ℕ, zero, suc, ◌≤◌, ◌<◌, String, ◌≡◌, refl, Option, none, some, Bool, true, false, arith,
  string_eq, nat_eq, inl, inr, Bool-cases,
}
use goppstats.Prelude.Result.{Result, ok, err, Error, is_connection_refused, Result-cases}
use goppstats.Api.Client.{session_path, Cluster, Request, Response, Net}
use goppstats.Api.Client.Session.{
  Finish, returned, left, next_retry, rounds, authenticate, end_auth, auth_loop, auth_request,
}
use goppstats.Api.Client.Get.{new_get_request, get_loop, end_get, get_fresh, needs_auth, rest_get}

-- The clock does not go back, and after a deadline every request fails.
pub record IsNetCancelledAt {Float64 W : Type 0} (net : Net Float64 W) (clock : W → ℕ)
    (deadline : ℕ) : Type 0 where
  pub after_send : (req : Request) (w : W) → clock w ≤ clock (net.send req w).1
  pub after_wait : (secs : ℕ) (w : W) → clock w ≤ clock (net.wait secs w).1
  pub no_send :
      (req : Request) (w : W) → deadline < clock w → (e : Error) × ((net.send req w).0 ≡ err e)

-- A retry loop that gives no result.
abbrev fails : {A : Type 0} → Finish A → Bool
fails (returned (ok a)) = false
fails (returned (err e)) = true
fails (left (some e) resp) = true
fails (left none none) = true
fails (left none (some resp)) = false

abbrev pub is_err : {A : Type 0} → Result A → Bool
is_err (ok a) = false
is_err (err e) = true

module _ {Float64 W : Type 0} (net : Net Float64 W) (clock : W → ℕ) (deadline : ℕ)
    (laws : IsNetCancelledAt net clock deadline) where
  auth_loop-clock :
      (c : Cluster) (n secs : ℕ) (url : String) (e : Option Error) (resp : Option Response) (w : W)
      → clock w ≤ clock (auth_loop net c n secs url e resp w).1
  unfolding auth_loop
  auth_loop-clock c zero secs url e resp w = omega arith
  auth_loop-clock c (suc n) secs url e resp w =
      let req = auth_request net c url in
      let w₁ = (net.send req w).1 in
      let sent = laws.after_send req w in
      let waited = laws.after_wait secs w₁ in
      elim (Result-cases (net.check_url url)) [
        | inr (x, q) ↦ ground (arith, q)
        | inl (_, q) ↦ elim (Result-cases (net.send req w).0) [
          | inl (resp', s) ↦ ground (arith, q, s, sent)
          | inr (x, s) ↦ elim (Bool-cases (net.wait secs w₁).0) [
            | inr p ↦ ground (arith, q, s, p, sent, waited)
            | inl p ↦
                let w₂ = (net.wait secs w₁).1 in
                ground (
                  arith,
                  q,
                  s,
                  p,
                  sent,
                  waited,
                  auth_loop-clock c n (next_retry secs) url (some x) none w₂,
                )
          ]
        ]
      ]

  end_auth-clock :
      (c : Cluster) (url : String) (f : Finish Unit × W)
      → clock (end_auth net c url f).2 ≡ clock f.1
  unfolding end_auth
  end_auth-clock c url (returned r, w) = refl
  end_auth-clock c url (left (some e) resp, w) = refl
  end_auth-clock c url (left none none, w) = refl
  end_auth-clock c url (left none (some resp), w) = ground arith

  authenticate-clock : (c : Cluster) (w : W) → clock w ≤ clock (authenticate net c w).2
  unfolding authenticate
  authenticate-clock c w = elim (Result-cases (net.parse_url (c.base_url ++ session_path))) [
    | inr (x, q) ↦ ground (arith, q)
    | inl (url, q) ↦
        let n = rounds c.max_retries in
        let loop = auth_loop net c n 1 url none none w in
        ground (arith, q, end_auth-clock c url loop, auth_loop-clock c n 1 url none none w)
  ]

  get_loop-clock :
      (n secs : ℕ) (url : String) (req : Request) (e : Option Error) (resp : Option Response)
      (c : Cluster) (w : W)
      → clock w ≤ clock (get_loop net n secs url req e resp c w).2
  unfolding get_loop
  get_loop-clock zero secs url req e resp c w = omega arith
  get_loop-clock (suc n) secs url req e resp c w =
      let w₁ = (net.send req w).1 in
      let (a, c', w₂) = authenticate net c w₁ in
      let sent = laws.after_send req w in
      let opened = authenticate-clock c w₁ in
      elim (Result-cases (net.send req w).0) [
        | inl (resp', s) ↦ elim (Result-cases (new_get_request net c' url)) [
          | inl (req', q) ↦
              ground
                (arith, s, q, sent, opened, get_loop-clock n secs url req' none (some resp') c' w₂)
          | inr (x, q) ↦ ground (arith, s, q, sent, opened)
        ]
        | inr (x, s) ↦ ground (
          arith,
          s,
          sent,
          laws.after_wait secs w₁,
          get_loop-clock n (next_retry secs) url req (some x) none c (net.wait secs w₁).1,
        )
      ]

  get_loop-fails :
      (n secs : ℕ) (url : String) (req : Request) (e : Option Error) (c : Cluster) (w : W)
      → deadline < clock w
      → fails (get_loop net n secs url req e none c w).0 ≡ true
  unfolding get_loop
  get_loop-fails zero secs url req none c w b = refl
  get_loop-fails zero secs url req (some e) c w b = refl
  get_loop-fails (suc n) secs url req e c w b =
      let w₁ = (net.send req w).1 in
      let (x, s) = laws.no_send req w b in
      let sent = laws.after_send req w in
      let waited = laws.after_wait secs w₁ in
      let more =
        get_loop-fails n (next_retry secs) url req (some x) c (net.wait secs w₁).1 (omega arith) in
      elim (Bool-cases (is_connection_refused x)) [
        | inr r ↦ ground (arith, s, r)
        | inl r ↦ elim (Bool-cases (net.wait secs w₁).0) [
          | inr p ↦ ground (arith, s, r, p)
          | inl p ↦ ground (arith, s, r, p, more)
        ]
      ]

  end_get-clock : (f : Finish String × Cluster × W) → clock (end_get net f).2 ≡ clock f.2
  unfolding end_get
  end_get-clock (returned r, c, w) = refl
  end_get-clock (left (some e) resp, c, w) = refl
  end_get-clock (left none none, c, w) = refl
  end_get-clock (left none (some resp), c, w) = ground arith

  end_get-fails :
      (f : Finish String × Cluster × W) → fails f.0 ≡ true → is_err (end_get net f).0 ≡ true
  unfolding end_get
  end_get-fails (returned (ok t), c, w) h = let no : ⊥ = ground (arith, h) in elim no [ ]
  end_get-fails (returned (err e), c, w) h = refl
  end_get-fails (left (some e) resp, c, w) h = refl
  end_get-fails (left none none, c, w) h = refl
  end_get-fails (left none (some resp), c, w) h = let no : ⊥ = ground (arith, h) in elim no [ ]

  -- The clock after a request, and its failure after the deadline.
  abbrev pub IsGet : W → Result String × Cluster × W → Type 0
  IsGet w (r, c, w') = (clock w ≤ clock w') × (deadline < clock w → is_err r ≡ true)

  get_fresh-IsGet : (c : Cluster) (endpoint : String) (w : W) → IsGet w (get_fresh net c endpoint w)
  unfolding get_fresh
  get_fresh-IsGet c endpoint w = elim (Result-cases (net.parse_url (c.base_url ++ endpoint))) [
    | inr (x, e) ↦ rw (e, get_fresh) (omega arith, λ b. refl)
    | inl (url, e) ↦ elim (Result-cases (new_get_request net c url)) [
      | inr (x, q) ↦ rw (e, get_fresh) (rw (q, get_fresh) (omega arith, λ b. refl))
      | inl (req, q) ↦
          let n = rounds c.max_retries in
          let loop = get_loop net n 1 url req none none c w in
          let ended = end_get-clock loop in
          let looped = get_loop-clock n 1 url req none none c w in
          rw (e, get_fresh)
            (rw (q, get_fresh)
              (omega arith, λ b. end_get-fails loop (get_loop-fails n 1 url req none c w b)))
    ]
  ]

  pub rest_get-IsGet :
      (c : Cluster) (endpoint : String) (w : W) → IsGet w (rest_get net c endpoint w)
  unfolding rest_get
  rest_get-IsGet c endpoint w =
      let (a, c', w₁) = authenticate net c w in
      let opened = authenticate-clock c w in
      elim (Bool-cases (needs_auth net c w)) [
        | inr s ↦ rw (s, rest_get) (get_fresh-IsGet c endpoint w)
        | inl s ↦ elim (Result-cases a) [
          | inr (x, q) ↦ rw (s, rest_get) (rw (q, rest_get) (opened, λ b. refl))
          | inl (_, q) ↦
              let (more, failed) = get_fresh-IsGet c' endpoint w₁ in
              rw (s, rest_get) (rw (q, rest_get) (omega arith, λ b. failed (omega arith)))
        ]
      ]
