-- ===== src/Main/Run/Enabled.antt =====
-- The clusters that a run starts collectors for are those that the configuration enables.
use goppstats.Prelude.{
  ℕ, suc, ◌≤◌, List, [], ◌∷◌, false, Option, none, some, ◌≡◌, arith, In, inl, inr, Bool-cases, ◌==◌,
  nat_eq, if◌then◌else◌,
}
use goppstats.Config.{TomlConfig, ClusterConf}
use goppstats.Main.Run.{enabled_from}

-- The cluster of a number, in a list whose first has another number.
unfoldable pub cluster_at : ℕ → ℕ → List ClusterConf → Option ClusterConf
cluster_at ci first [] = none
cluster_at ci first (cl ∷ rest) =
    let later = cluster_at ci (suc first) rest in if ci == first then some cl else later

abbrev pub IsEnabled : TomlConfig → ℕ → Type 0
IsEnabled conf ci =
    (cl : ClusterConf) × (cluster_at ci 0 conf.clusters ≡ some cl) × (cl.disabled ≡ false)

-- An enabled number is at least the first, and is that of an enabled cluster.
enabled_from-first :
    (ci first : ℕ) (cls : List ClusterConf) → In ci (enabled_from first cls) → first ≤ ci
unfolding enabled_from
enabled_from-first ci first [] m = elim m [ ]
enabled_from-first ci first (cl ∷ rest) m = elim (Bool-cases cl.disabled) [
  | inl d ↦
      let later : In ci (enabled_from (suc first) rest) = rw (d, enabled_from) at m in
      ground (arith, enabled_from-first ci (suc first) rest later)
  | inr d ↦
      let now : In ci (first ∷ enabled_from (suc first) rest) = rw (d, enabled_from) at m in
      elim now [
        | inl e ↦ ground (arith, e)
        | inr later ↦ ground (arith, enabled_from-first ci (suc first) rest later)
      ]
]

abbrev IsEnabledFrom : ℕ → ℕ → List ClusterConf → Type 0
IsEnabledFrom ci first cls =
    (cl : ClusterConf) × (cluster_at ci first cls ≡ some cl) × (cl.disabled ≡ false)

pub enabled_from-IsEnabledFrom :
    (ci first : ℕ) (cls : List ClusterConf)
    → In ci (enabled_from first cls)
    → IsEnabledFrom ci first cls
unfolding enabled_from cluster_at
enabled_from-IsEnabledFrom ci first [] m = elim m [ ]
enabled_from-IsEnabledFrom ci first (cl ∷ rest) m =
    let further : In ci (enabled_from (suc first) rest) → IsEnabledFrom ci first (cl ∷ rest) =
      λ later.
        let (c, e, d) = enabled_from-IsEnabledFrom ci (suc first) rest later in
        (c, ground (arith, e, enabled_from-first ci (suc first) rest later), d) in
    elim (Bool-cases cl.disabled) [
      | inl d ↦ further (rw (d, enabled_from) at m)
      | inr d ↦
          let now : In ci (first ∷ enabled_from (suc first) rest) = rw (d, enabled_from) at m in
          elim now [ inl e ↦ (cl, ground (arith, e), d) | inr later ↦ further later ]
    ]
