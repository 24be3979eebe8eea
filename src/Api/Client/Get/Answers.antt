-- ===== src/Api/Client/Get/Answers.antt =====
-- Which answers `restGet` passes on.
use Prim.Native.String.{◌++◌}
use goppstats.Prelude.{
  ℕ, zero, suc, String, ◌≡◌, refl, ap, subst, ◌∙◌, Option, none, some, arith, ◌==◌, string_eq,
  nat_eq, inl, inr, Bool-cases,
}
use goppstats.Prelude.Result.{ok, err, Error, Result-cases, is_connection_refused}
use goppstats.Api.Client.{Cluster, Request, Response, Net, authtype_basic}
use goppstats.Api.Client.Session.{Finish, returned, left, next_retry, rounds, authenticate}
use goppstats.Api.Client.Get.Frame.{identity, identity-authenticate}
use goppstats.Api.Client.Get.{new_get_request, get_loop, end_get, get_fresh, needs_auth, rest_get}

module _ {Float64 W : Type 0} (net : Net Float64 W) where
  -- A request that the client, with its identity and some CSRF token, makes of a URL.
  abbrev IsMadeBy : Cluster → String → Request → Type 0
  IsMadeBy o url req =
      (c : Cluster) × (identity c ≡ identity o) × (new_get_request net c url ≡ ok req)

  -- The network answered such a request with this response.
  abbrev pub IsAnswer : Cluster → String → Response → Type 0
  IsAnswer o url resp =
      (req : Request) × (w : W) × IsMadeBy o url req × ((net.send req w).0 ≡ ok resp)

  -- The response left by a loop, if any, is an answer; an early return is no success.
  abbrev IsHonest : Cluster → String → Finish String → Type 0
  IsHonest o url (returned (ok body)) = ⊥
  IsHonest o url (returned (err e)) = Unit
  IsHonest o url (left e (some resp)) = IsAnswer o url resp
  IsHonest o url (left e none) = Unit

  get_loop-IsHonest :
      (n secs : ℕ) (url : String) (req : Request) (e : Option Error) (resp : Option Response)
      (c o : Cluster) (w : W)
      → identity c ≡ identity o
      → IsMadeBy o url req
      → IsHonest o url (left e resp)
      → IsHonest o url (get_loop net n secs url req e resp c w).0
  unfolding get_loop
  get_loop-IsHonest zero secs url req e resp c o w i made h = h
  get_loop-IsHonest (suc n) secs url req e resp c o w i made h =
      let w₁ = (net.send req w).1 in
      let (a, c', w₂) = authenticate net c w₁ in
      elim (Result-cases (net.send req w).0) [
        | inl (resp', s) ↦ elim (Bool-cases (resp'.status_code == 200)) [
          | inl t ↦ rw (s, get_loop) (rw (t, get_loop) (req, w, made, s))
          | inr t ↦ elim (Bool-cases (resp'.status_code == 401)) [
            | inr u ↦ rw (s, get_loop) (rw (t, get_loop) (rw (u, get_loop) tt))
            | inl u ↦ elim (Bool-cases (c.auth_type == authtype_basic)) [
              | inl b ↦ rw (s, get_loop) (rw (t, get_loop) (rw (u, get_loop) (rw (b, get_loop) tt)))
              | inr b ↦
                  rw (s, get_loop)
                    (rw (t, get_loop)
                      (rw (u, get_loop)
                        (rw (b, get_loop)
                          (elim (Result-cases a) [
                            | inr (x, q) ↦ rw (q, get_loop) tt
                            | inl (_, q) ↦ elim (Result-cases (new_get_request net c' url)) [
                              | inr (x, p) ↦ rw (q, get_loop) (rw (p, get_loop) tt)
                              | inl (req', p) ↦
                                  rw (q, get_loop)
                                    (rw (p, get_loop)
                                      (get_loop-IsHonest n secs url req' none (some resp') c' o w₂
                                        (identity-authenticate net c w₁ ∙ i)
                                        (c', identity-authenticate net c w₁ ∙ i, p)
                                        (req, w, made, s)))
                            ]
                          ]))))
            ]
          ]
        ]
        | inr (x, s) ↦
            rw (s, get_loop)
              (elim (Bool-cases (is_connection_refused x)) [
                | inr t ↦ rw (t, get_loop) tt
                | inl t ↦ elim (Bool-cases (net.wait secs w₁).0) [
                  | inr q ↦ rw (t, get_loop) (rw (q, get_loop) tt)
                  | inl q ↦
                      rw (t, get_loop)
                        (rw (q, get_loop)
                          (get_loop-IsHonest n (next_retry secs) url req (some x) none c o
                            (net.wait secs w₁).1 i made tt))
                ]
              ])
      ]

  end_get-IsAnswer :
      (o : Cluster) (url : String) (f : Finish String × Cluster × W) (body : String)
      → IsHonest o url f.0
      → (end_get net f).0 ≡ ok body
      → (resp : Response) × IsAnswer o url resp × (resp.status_code ≡ 200) × (resp.body ≡ ok body)
  unfolding end_get
  end_get-IsAnswer o url (returned (ok b), c, w) body h e = elim h [ ]
  end_get-IsAnswer o url (returned (err x), c, w) body h e = ground (arith, e)
  end_get-IsAnswer o url (left (some x) resp, c, w) body h e = ground (arith, e)
  end_get-IsAnswer o url (left none none, c, w) body h e = ground (arith, e)
  end_get-IsAnswer o url (left none (some resp), c, w) body h e =
      (resp, h, ground (arith, e), ground (arith, e))

  -- A body is that of an answer to a request of the endpoint, with status 200.
  abbrev pub IsAnswered : Cluster → String → String → Type 0
  IsAnswered o endpoint body =
      (url : String) × (resp : Response) × (net.parse_url (o.base_url ++ endpoint) ≡ ok url)
      × IsAnswer o url resp
      × (resp.status_code ≡ 200)
      × (resp.body ≡ ok body)

  get_fresh-IsAnswered :
      (c o : Cluster) (endpoint : String) (w : W) (body : String)
      → identity c ≡ identity o
      → (get_fresh net c endpoint w).0 ≡ ok body
      → IsAnswered o endpoint body
  unfolding get_fresh
  get_fresh-IsAnswered c o endpoint w body i e =
      elim (Result-cases (net.parse_url (c.base_url ++ endpoint))) [
        | inr (x, p) ↦ let no : ⊥ = ground (arith, p, e) in elim no [ ]
        | inl (url, p) ↦ elim (Result-cases (new_get_request net c url)) [
          | inr (x, q) ↦ let no : ⊥ = ground (arith, p, q, e) in elim no [ ]
          | inl (req, q) ↦
              let (resp, answer, ok_status, same) =
                end_get-IsAnswer o url (get_loop net (rounds c.max_retries) 1 url req none none c w)
                  body
                  (get_loop-IsHonest (rounds c.max_retries) 1 url req none none c o w i (c, i, q)
                    tt)
                  (ground (arith, p, q, e)) in
              (
                url,
                resp,
                subst (λ b. net.parse_url (b ++ endpoint) ≡ ok url) (ap (λ x. x.base_url) i) p,
                answer,
                ok_status,
                same,
              )
        ]
      ]

  pub rest_get-IsAnswer :
      (c : Cluster) (endpoint : String) (w : W) (body : String)
      → (rest_get net c endpoint w).0 ≡ ok body
      → IsAnswered c endpoint body
  unfolding rest_get
  rest_get-IsAnswer c endpoint w body e =
      let (a, c', w₁) = authenticate net c w in
      elim (Bool-cases (needs_auth net c w)) [
        | inr p ↦ get_fresh-IsAnswered c c endpoint w body refl (ground (arith, p, e))
        | inl p ↦ elim (Result-cases a) [
          | inr (x, q) ↦ let no : ⊥ = ground (arith, p, q, e) in elim no [ ]
          | inl (_, q) ↦
              get_fresh-IsAnswered c' c endpoint w₁ body (identity-authenticate net c w)
                (ground (arith, p, q, e))
        ]
      ]
