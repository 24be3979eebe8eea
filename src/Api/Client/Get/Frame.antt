-- ===== src/Api/Client/Get/Frame.antt =====
-- What requests change of the client.
use Prim.Native.String.{◌++◌}
use goppstats.Prelude.{
  ℕ, zero, suc, String, ◌≡◌, refl, Option, none, some, arith, string_eq, nat_eq, inl, inr,
}
use goppstats.Prelude.Int.{pos}
use goppstats.Prelude.Result.{Error, Result-cases}
use goppstats.Api.Client.{session_path, Cluster, Request, Response, Net}
use goppstats.Api.Client.Session.{
  Finish, returned, left, next_retry, rounds, authenticate, end_auth, auth_loop,
}
use goppstats.Api.Client.Get.{new_get_request, get_loop, end_get, get_fresh, rest_get}

-- The client without its session.
abbrev pub identity : Cluster → Cluster
identity c = record c { csrf_token = ""; reauth_time = pos 0 }

module _ {Float64 W : Type 0} (net : Net Float64 W) where
  identity-end_auth :
      (c : Cluster) (url : String) (f : Finish Unit × W)
      → identity (end_auth net c url f).1 ≡ identity c
  unfolding end_auth
  identity-end_auth c url (returned r, w) = refl
  identity-end_auth c url (left (some e) resp, w) = refl
  identity-end_auth c url (left none none, w) = refl
  identity-end_auth c url (left none (some resp), w) = ground arith

  pub identity-authenticate : (c : Cluster) (w : W) → identity (authenticate net c w).1 ≡ identity c
  unfolding authenticate
  identity-authenticate c w = elim (Result-cases (net.parse_url (c.base_url ++ session_path))) [
    | inl (url, e) ↦ ground (
      arith,
      e,
      identity-end_auth c url (auth_loop net c (rounds c.max_retries) 1 url none none w),
    )
    | inr (x, e) ↦ ground (arith, e)
  ]

  identity-get_loop :
      (n secs : ℕ) (url : String) (req : Request) (e : Option Error) (resp : Option Response)
      (c : Cluster) (w : W)
      → identity (get_loop net n secs url req e resp c w).1 ≡ identity c
  unfolding get_loop
  identity-get_loop zero secs url req e resp c w = refl
  identity-get_loop (suc n) secs url req e resp c w =
      let w₁ = (net.send req w).1 in
      let (a, c', w₂) = authenticate net c w₁ in
      elim (Result-cases (net.send req w).0) [
        | inl (resp', s) ↦ elim (Result-cases (new_get_request net c' url)) [
          | inl (req', q) ↦ ground (
            arith,
            s,
            q,
            identity-authenticate c w₁,
            identity-get_loop n secs url req' none (some resp') c' w₂,
          )
          | inr (x, q) ↦ ground (arith, s, q, identity-authenticate c w₁)
        ]
        | inr (x, s) ↦ ground (
          arith,
          s,
          identity-get_loop n (next_retry secs) url req (some x) none c (net.wait secs w₁).1,
        )
      ]

  cluster-end_get : (f : Finish String × Cluster × W) → (end_get net f).1 ≡ f.1
  unfolding end_get
  cluster-end_get (returned r, c, w) = refl
  cluster-end_get (left (some e) resp, c, w) = refl
  cluster-end_get (left none none, c, w) = refl
  cluster-end_get (left none (some resp), c, w) = ground arith

  identity-get_fresh :
      (c : Cluster) (endpoint : String) (w : W)
      → identity (get_fresh net c endpoint w).1 ≡ identity c
  unfolding get_fresh
  identity-get_fresh c endpoint w = elim (Result-cases (net.parse_url (c.base_url ++ endpoint))) [
    | inl (url, e) ↦ elim (Result-cases (new_get_request net c url)) [
      | inl (req, q) ↦
          let loop = get_loop net (rounds c.max_retries) 1 url req none none c w in
          ground (
            arith,
            e,
            q,
            cluster-end_get loop,
            identity-get_loop (rounds c.max_retries) 1 url req none none c w,
          )
      | inr (x, q) ↦ ground (arith, e, q)
    ]
    | inr (x, e) ↦ ground (arith, e)
  ]

  -- A request changes the client's CSRF token and the time of its next authentication, nothing else.
  pub identity-rest_get :
      (c : Cluster) (endpoint : String) (w : W)
      → identity (rest_get net c endpoint w).1 ≡ identity c
  unfolding rest_get
  identity-rest_get c endpoint w =
      let (a, c', w₁) = authenticate net c w in
      ground (
        arith,
        identity-authenticate c w,
        identity-get_fresh c endpoint w,
        identity-get_fresh c' endpoint w₁,
      )
