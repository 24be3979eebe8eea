-- ===== src/Api/Client/Get.antt =====
-- `newGetRequest` and `restGet`.
pub mod Answers
pub mod Frame
pub mod Refused
use Prim.Native.String.{◌++◌}
use mathlib.Core.List
use goppstats.Prelude.{
  ℕ, zero, suc, String, [], ◌∷◌, Bool, true, false, ◌&&◌, Option, none, some, ◌==◌, string_eq,
  nat_eq, if◌then◌else◌,
}
use goppstats.Prelude.Int.{ltb_ℤ}
use goppstats.Prelude.Result.{Result, ok, err, Error, message, panicked, is_connection_refused}
use goppstats.Api.Client.{
  Cluster, Request, Response, Net, authtype_basic, authtype_session, user_agent, to_string,
}
use goppstats.Api.Client.Session.{Finish, returned, left, next_retry, rounds, authenticate}

-- `fmt.Errorf("cluster %s returned unexpected HTTP response: %v", c, resp.Status)`
abbrev unexpected : Cluster → Response → Error
unexpected c resp =
    message ("cluster " ++ to_string c ++ " returned unexpected HTTP response: " ++ resp.status)

abbrev basic_failed : Cluster → Error
basic_failed c =
    message (
      "basic authentication for cluster " ++ to_string c ++ " failed - check username and password")

module _ {Float64 W : Type 0} (net : Net Float64 W) where
  unfoldable pub new_get_request : Cluster → String → Result Request
  new_get_request c url = elim (net.check_url url) [
    | err e ↦ err e
    | ok _ ↦ ok (record {
      method = "GET";
      url = url;
      headers = List.◌++◌ (("User-Agent", user_agent) ∷ ("Content-Type", "application/json") ∷ []) (
          if c.csrf_token == ""
          then []
          else ("X-CSRF-Token", c.csrf_token) ∷ ("Referer", c.base_url) ∷ []);
      basic_auth = if c.auth_type == authtype_basic then some (c.username, c.password) else none;
      body = none;
    })
  ]

  -- The loop, by the rounds left, with the last error and response.
  unfoldable pub get_loop :
      ℕ
      → ℕ
      → String
      → Request
      → Option Error
      → Option Response
      → Cluster
      → W
      → Finish String × Cluster × W
  get_loop zero secs url req e resp c w = (left e resp, c, w)
  get_loop (suc n) secs url req e resp c w =
      let (r, w₁) = net.send req w in
      elim r [
        | ok resp' ↦ elim (resp'.status_code == 200) [
          | true ↦ (left none (some resp'), c, w₁)
          | false ↦ elim (resp'.status_code == 401) [
            | false ↦ (returned (err (unexpected c resp')), c, w₁)
            | true ↦ elim (c.auth_type == authtype_basic) [
              | true ↦ (returned (err (basic_failed c)), c, w₁)
              | false ↦
                  let (a, c', w₂) = authenticate net c w₁ in
                  elim a [
                    | err e' ↦ (returned (err e'), c', w₂)
                    | ok _ ↦ elim (new_get_request c' url) [
                      | err e' ↦ (returned (err e'), c', w₂)
                      | ok req' ↦ get_loop n secs url req' none (some resp') c' w₂
                    ]
                  ]
            ]
          ]
        ]
        | err e' ↦ elim (is_connection_refused e') [
          | false ↦ (returned (err e'), c, w₁)
          | true ↦
              let (passed, w₂) = net.wait secs w₁ in
              elim passed [
                | false ↦ (returned (err (net.context_error w₂)), c, w₂)
                | true ↦ get_loop n (next_retry secs) url req (some e') none c w₂
              ]
        ]
      ]

  -- What follows the loop.
  unfoldable pub end_get : Finish String × Cluster × W → Result String × Cluster × W
  end_get (returned r, c, w) = (r, c, w)
  end_get (left (some e) resp, c, w) = (err e, c, w)
  end_get (left none none, c, w) = (err panicked, c, w)
  end_get (left none (some resp), c, w) =
      if resp.status_code == 200 then (resp.body, c, w) else (err (unexpected c resp), c, w)

  -- The request, once the session is fresh.
  unfoldable pub get_fresh : Cluster → String → W → Result String × Cluster × W
  unfolding end_get
  get_fresh c endpoint w = elim (net.parse_url (c.base_url ++ endpoint)) [
    | err e ↦ (err e, c, w)
    | ok url ↦ elim (new_get_request c url) [
      | err e ↦ (err e, c, w)
      | ok req ↦ end_get (get_loop (rounds c.max_retries) 1 url req none none c w)
    ]
  ]

  -- `time.Now().After(c.reauthTime)`, for a session
  unfoldable pub needs_auth : Cluster → W → Bool
  needs_auth c w = c.auth_type == authtype_session && ltb_ℤ c.reauth_time (net.now w)

  unfoldable pub rest_get : Cluster → String → W → Result String × Cluster × W
  unfolding get_fresh needs_auth
  rest_get c endpoint w = elim (needs_auth c w) [
    | false ↦ get_fresh c endpoint w
    | true ↦
        let (a, c', w₁) = authenticate net c w in
        elim a [ err e ↦ (err e, c', w₁) | ok _ ↦ get_fresh c' endpoint w₁ ]
  ]
