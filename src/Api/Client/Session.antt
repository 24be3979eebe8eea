-- ===== src/Api/Client/Session.antt =====
-- Setting the client up, and session authentication: `initialize` and `Authenticate`.
pub mod Retry
use Prim.Native.String.{◌++◌}
use goppstats.Prelude.{
  ℕ, zero, suc, ◌*◌, String, List, [], ◌∷◌, true, false, Option, none, some, ◌==◌, string_eq,
  nat_eq, ltb, if◌then◌else◌,
}
use goppstats.Prelude.Int.{ℤ, pos, negsuc, ◌+ℤ◌, ◌-ℤ◌, ltb_ℤ, int_eq}
use goppstats.Prelude.Format.{itoa}
use goppstats.Prelude.Result.{Result, ok, err, Error, message, wrapped, panicked}
use goppstats.Api.Json.{Json, null, num, obj, Fields, end, get}
use goppstats.Api.Client.{
  Cluster, Request, Response, Net, user_agent, session_path, max_timeout_secs,
}

-- `retrySecs *= 2`, clamped
unfoldable pub next_retry : ℕ → ℕ
next_retry secs = if ltb max_timeout_secs (secs * 2) then max_timeout_secs else secs * 2

-- The rounds of `for i := 1; i <= maxRetries; i++`.
abbrev pub rounds : ℤ → ℕ
rounds (pos n) = n
rounds (negsuc _) = 0

-- `initialize`; the cookie jar is made without error.
unfoldable pub initialize : Cluster → Result Unit × Cluster
initialize c =
    if c.connected
    then (ok tt, c)
    else if c.username == ""
    then (err (message "username must be set"), c)
    else if c.password == ""
    then (err (message "password must be set"), c)
    else if c.hostname == ""
    then (err (message "hostname must be set"), c)
    else let port = if c.port == pos 0 then pos 8080 else c.port in
      (
        ok tt,
        record c {
          port = port;
          connected = true;
          base_url = "https://" ++ c.hostname ++ ":" ++ itoa port;
        },
      )

-- How a retry loop ends: an early return, or the last error and response when it is left.
pub data Finish (A : Type 0) : Type 0 where
  returned : Result A → Finish A
  left : Option Error → Option Response → Finish A

module _ {Float64 W : Type 0} (net : Net Float64 W) where
  abbrev pub auth_request : Cluster → String → Request
  auth_request c url = record {
    method = "POST";
    url = url;
    headers = ("User-Agent", user_agent) ∷ ("Content-Type", "application/json") ∷ [];
    basic_auth = none;
    body =
        some (record { username = c.username; password = c.password; services = "platform" ∷ [] });
  }

  -- The loop of `Authenticate`, by the rounds left, with the last error and response.
  unfoldable pub auth_loop :
      Cluster → ℕ → ℕ → String → Option Error → Option Response → W → Finish Unit × W
  auth_loop c zero secs url e resp w = (left e resp, w)
  auth_loop c (suc n) secs url e resp w = elim (net.check_url url) [
    | err e' ↦ (returned (err e'), w)
    | ok _ ↦
        let (r, w₁) = net.send (auth_request c url) w in
        elim r [
          | ok resp' ↦ (left none (some resp'), w₁)
          | err e' ↦
              let (passed, w₂) = net.wait secs w₁ in
              elim passed [
                | false ↦ (returned (err (net.context_error w₂)), w₂)
                | true ↦ auth_loop c n (next_retry secs) url (some e') none w₂
              ]
        ]
  ]

  -- The time limit of the answer, less a minute's grace.
  unfoldable timeout_of : Fields Float64 → ℤ
  timeout_of fields =
      let timeout : ℤ = elim (get "timeout_absolute" fields) [
        | some (num f) ↦ net.to_int f
        | _ ↦ pos 14400
      ] in
      if ltb_ℤ (pos 60) timeout then timeout -ℤ pos 60 else timeout

  unfoldable csrf_from : String → List (String × String) → String
  csrf_from token [] = token
  csrf_from token ((name, value) ∷ rest) =
      csrf_from (if name == "isicsrf" then value else token) rest

  -- `Decode` into a map: an object, or `null`, which leaves the map nil.
  unfoldable decode_object : Result (Json Float64) → Result (Fields Float64)
  decode_object (ok (obj fields)) = ok fields
  decode_object (ok null) = ok end
  decode_object (ok _) = err (message "cannot unmarshal into a map")
  decode_object (err e) = err e

  abbrev body_json : Result String → Result (Json Float64)
  body_json (ok text) = net.decode text
  body_json (err e) = err e

  -- What `Authenticate` does with the response that ends its loop.
  unfoldable accept_session : Cluster → String → Response → W → Result Unit × Cluster × W
  unfolding timeout_of csrf_from decode_object
  accept_session c url resp w =
      if resp.status_code == 201
      then elim (decode_object (body_json resp.body)) [
        | err e ↦ (err (wrapped "unable to parse auth response" e), c, w)
        | ok fields ↦ (
          ok tt,
          record c {
            reauth_time = net.now w +ℤ timeout_of fields;
            csrf_token = csrf_from "" (net.cookies url w);
          },
          w,
        )
      ]
      else (err (message ("auth failed: " ++ resp.status)), c, w)

  unfoldable pub end_auth : Cluster → String → Finish Unit × W → Result Unit × Cluster × W
  unfolding accept_session
  end_auth c url (returned r, w) = (r, c, w)
  end_auth c url (left (some e) resp, w) =
      (err (wrapped ("max retries exceeded connecting to " ++ c.hostname) e), c, w)
  end_auth c url (left none none, w) = (err panicked, c, w)
  end_auth c url (left none (some resp), w) = accept_session c url resp w

  unfoldable pub authenticate : Cluster → W → Result Unit × Cluster × W
  unfolding auth_loop end_auth
  authenticate c w = elim (net.parse_url (c.base_url ++ session_path)) [
    | err e ↦ (err e, c, w)
    | ok url ↦ end_auth c url (auth_loop c (rounds c.max_retries) 1 url none none w)
  ]
