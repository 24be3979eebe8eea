-- ===== src/Api/Client/Get/Refused.antt =====
-- A cluster that refuses connections: the retries of `restGet`.
use Prim.Native.Nat.{min}
use Prim.Native.String.{◌++◌}
use goppstats.Prelude.{ℕ, zero, suc, ◌^◌, String, ◌≡◌, refl, true, false, none, some, arith}
use goppstats.Prelude.Result.{ok, err, Error, is_connection_refused}
use goppstats.Prelude.Int.{pos}
use goppstats.Api.Client.{Cluster, Request, Net, max_timeout_secs}
use goppstats.Api.Client.Session.{left}
use goppstats.Api.Client.Session.Retry.{backoff, backoff_lem}
use goppstats.Api.Client.Get.{new_get_request, get_loop, end_get, get_fresh, needs_auth, rest_get}

module _ {Float64 W : Type 0} (net : Net Float64 W) where
  -- The network after so many attempts, each followed by its wait, from the attempt of a number.
  unfoldable pub after_attempts : Request → ℕ → ℕ → W → W
  after_attempts req k zero w = w
  after_attempts req k (suc n) w =
      after_attempts req (suc k) n (net.wait (min (2 ^ k) max_timeout_secs) (net.send req w).1).1

  -- The network refuses this request, always.
  abbrev IsRefused : Request → Error → Type 0
  IsRefused req x = ((w : W) → (net.send req w).0 ≡ err x) × (is_connection_refused x ≡ true)

  -- Every wait passes: the context is not cancelled.
  abbrev IsPatient : Type 0
  IsPatient = (secs : ℕ) (w : W) → (net.wait secs w).0 ≡ true

  get_loop-refused :
      (k n : ℕ) (url : String) (req : Request) (x : Error) (c : Cluster) (w : W)
      → IsRefused req x
      → IsPatient
      → get_loop net n (backoff k) url req (some x) none c w
        ≡ (left (some x) none, c, after_attempts req k n w)
  unfolding get_loop backoff after_attempts
  get_loop-refused k zero url req x c w h p = refl
  get_loop-refused k (suc n) url req x c w h p =
      let w₁ = (net.send req w).1 in
      ground (
        arith,
        h.0 w,
        h.1,
        backoff_lem k,
        p (backoff k) w₁,
        get_loop-refused (suc k) n url req x c (net.wait (backoff k) w₁).1 h p,
      )

  -- When no authentication is due, every attempt is refused and no wait is cancelled, `restGet` makes
  -- as many attempts as the configuration allows, at least one, with waits of 1, 2, 4, … seconds up to
  -- the limit; it then returns the network's error, and the client is unchanged.
  pub rest_get-refused :
      (n : ℕ) (endpoint url : String) (req : Request) (x : Error) (c : Cluster) (w : W)
      → c.max_retries ≡ pos (suc n)
      → needs_auth net c w ≡ false
      → net.parse_url (c.base_url ++ endpoint) ≡ ok url
      → new_get_request net c url ≡ ok req
      → IsRefused req x
      → IsPatient
      → rest_get net c endpoint w ≡ (err x, c, after_attempts req 0 (suc n) w)
  unfolding rest_get get_fresh get_loop backoff after_attempts end_get
  rest_get-refused n endpoint url req x c w m a u q h p =
      let w₁ = (net.send req w).1 in
      ground (arith, h.0 w, h.1, p 1 w₁, get_loop-refused 1 n url req x c (net.wait 1 w₁).1 h p)
