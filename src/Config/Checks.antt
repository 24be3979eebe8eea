-- ===== src/Config/Checks.antt =====
-- What a configuration that was read satisfies.
use Prim.Native.String.{◌++◌}
use Prim.Native.String
use Prim.Native.String.append
use goppstats.Prelude.{
  ℕ, zero, suc, ◌-◌, ◌^◌, sym, ap, ◌∙◌, subst, Option, none, some, ◌==◌, string_eq, ◌≡◌, refl,
  arith, contains, In, In-contains, inl, inr, Bool-cases,
}
use goppstats.Prelude.Int.{ℤ, pos, negsuc}
use goppstats.Prelude.Result.{Result, ok, err, message, Result-cases}
use goppstats.Config.{TomlConfig}
use goppstats.Config.Read.{
  trim_left_v, strip_prefix, supported_versions, validate_config_version, effective_retries,
  with_limits, read_config, env_prefix, secret_from_env, default_config,
}

effective_retries-positive : (n : ℤ) → (k : ℕ) × (effective_retries n ≡ pos (suc k))
effective_retries-positive (pos zero) = (2 ^ 63 - 2, refl)
effective_retries-positive (pos (suc k)) = (k, ground arith)
effective_retries-positive (negsuc k) = (2 ^ 63 - 2, ground arith)

-- A configuration that was read has a supported version, and at least one attempt each for the requests
-- and for the writes.
pub read_config-IsUsable :
    (decode_file : String.String → TomlConfig → Result TomlConfig) (name : String.String)
    (conf : TomlConfig)
    → read_config decode_file name ≡ ok conf
    → In (trim_left_v conf.global.version) supported_versions
      × ((k : ℕ) × (conf.global.max_retries ≡ pos (suc k)))
      × ((k : ℕ) × (conf.global.processor_max_retries ≡ pos (suc k)))
unfolding read_config validate_config_version
read_config-IsUsable decode_file name conf e =
    elim (Result-cases (decode_file name default_config)) [
      | inr (x, q) ↦ let no : ⊥ = ground (arith, q, e) in elim no [ ]
      | inl (c, q) ↦
          let g = c.global in
          elim (Bool-cases (g.version == "")) [
            | inl b ↦ let no : ⊥ = ground (arith, q, b, e) in elim no [ ]
            | inr b ↦ elim (Bool-cases (contains (trim_left_v g.version) supported_versions)) [
              | inr d ↦ let no : ⊥ = ground (arith, q, b, d, e) in elim no [ ]
              | inl d ↦
                  let same : conf ≡ with_limits c = ground (arith, q, b, d, e) in
                  let (k, p) = effective_retries-positive g.max_retries in
                  let (l, r) = effective_retries-positive g.processor_max_retries in
                  (
                    subst (λ x. In (trim_left_v x.global.version) supported_versions) (sym same)
                        (In-contains (trim_left_v g.version) supported_versions d),
                    (k, ap (λ x. x.global.max_retries) same ∙ p),
                    (l, ap (λ x. x.global.processor_max_retries) same ∙ r),
                  )
            ]
          ]
    ]

strip_prefix-append : (p s : String.String) → strip_prefix p (p ++ s) ≡ some s
unfolding strip_prefix
strip_prefix-append String.[] s = ground (arith, append.nil s)
strip_prefix-append (String.◌∷◌ c p) s = ground (arith, append.cons c p s, strip_prefix-append p s)

-- A text after the prefix names a variable: its value is the secret, and a missing one is an error.
secret_from_env_lem :
    (lookup_env : String.String → Option String.String) (name : String.String)
    → secret_from_env lookup_env (env_prefix ++ name) ≡ elim (lookup_env name) [
      | none ↦ err (message ("environment variable " ++ name ++ " is not set"))
      | some secret ↦ ok secret
    ]
unfolding secret_from_env
secret_from_env_lem lookup_env name = rw (strip_prefix-append env_prefix name, secret_from_env)
