-- ===== src/Prelude/Dict.antt =====
-- Go's `map[K]V` as an association list: a write replaces the entry of its key in place or appends
-- one, `delete` drops the key, and a read of a missing key is `none` (the zero value stands at the
-- reader).
use goppstats.Prelude.Tests.{Eq, ◌==◌, if◌then◌else◌, Bool-cases}
use mathlib.Core.Logic.{inl, inr}
use Prim.Native.Nat.{ℕ, ◌+◌, ◌<◌}
use mathlib.Core.Path.{◌≡◌, refl}
use mathlib.Core.Bool.{Bool, true, false}
use mathlib.Core.Option.{Option, none, some}
use mathlib.Core.List.{List, [], ◌∷◌}
use native.Mathlib.Omega.{arith}

abbrev pub Dict : Type 0 → Type 0 → Type 0
Dict K V = List (K × V)

-- One for a key that a test accepts, nothing for any other or for a missing one.
abbrev pub weight : {V : Type 0} → (V → Bool) → Option V → ℕ
weight p none = 0
weight p (some v) = if p v then 1 else 0

module _ {K V : Type 0} ⦃e : Eq K⦄ where
  unfoldable pub lookup : K → Dict K V → Option V
  lookup k [] = none
  lookup k ((j, new) ∷ dict) = if j == k then some new else lookup k dict

  -- `_, ok := m[k]`
  abbrev pub has : K → Dict K V → Bool
  has k dict = elim (lookup k dict) [ none ↦ false | some _ ↦ true ]

  unfoldable pub insert : K → V → Dict K V → Dict K V
  insert k new [] = (k, new) ∷ []
  insert k new ((j, old) ∷ dict) = if j == k then (k, new) ∷ dict else (j, old) ∷ insert k new dict

  unfoldable pub remove : K → Dict K V → Dict K V
  remove k [] = []
  remove k ((j, old) ∷ dict) = let rest = remove k dict in if j == k then rest else (j, old) ∷ rest

  -- No key has two entries, as in every Go map.
  abbrev pub UniqueKeys : Dict K V → Type 0
  UniqueKeys [] = Unit
  UniqueKeys ((k, new) ∷ dict) = (lookup k dict ≡ none) × UniqueKeys dict

  -- How many entries have a value that the test accepts.
  unfoldable pub count_by : (V → Bool) → Dict K V → ℕ
  count_by p [] = 0
  count_by p ((k, new) ∷ dict) = weight p (some new) + count_by p dict

  pub lookup-insert :
      (k j : K) (new : V) (dict : Dict K V)
      → lookup j (insert k new dict) ≡ (if k == j then some new else lookup j dict)
  unfolding lookup insert
  lookup-insert k j new [] = refl
  lookup-insert k j new ((i, old) ∷ dict) =
      ground (arith, e.beq_iff k j, e.beq_iff i k, e.beq_iff i j, lookup-insert k j new dict)

  pub lookup-remove :
      (k j : K) (dict : Dict K V)
      → lookup j (remove k dict) ≡ (if k == j then none else lookup j dict)
  unfolding lookup remove
  lookup-remove k j [] = ground arith
  lookup-remove k j ((i, old) ∷ dict) =
      ground (arith, e.beq_iff k j, e.beq_iff i k, e.beq_iff i j, lookup-remove k j dict)

  pub insert-UniqueKeys :
      (k : K) (new : V) (dict : Dict K V) → UniqueKeys dict → UniqueKeys (insert k new dict)
  unfolding insert lookup
  insert-UniqueKeys k new [] u = (refl, tt)
  insert-UniqueKeys k new ((i, old) ∷ dict) u = ground (
    arith,
    e.beq_iff i k,
    e.beq_iff k i,
    lookup-insert k i new dict,
    insert-UniqueKeys k new dict u.1,
  )

  pub remove-UniqueKeys : (k : K) (dict : Dict K V) → UniqueKeys dict → UniqueKeys (remove k dict)
  unfolding remove lookup
  remove-UniqueKeys k [] u = tt
  remove-UniqueKeys k ((i, old) ∷ dict) u =
      ground (arith, lookup-remove k i dict, remove-UniqueKeys k dict u.1)

  pub count_by-insert :
      (p : V → Bool) (k : K) (new : V) (dict : Dict K V)
      → count_by p (insert k new dict) + weight p (lookup k dict)
        ≡ count_by p dict + weight p (some new)
  unfolding count_by insert lookup
  count_by-insert p k new [] = omega arith
  count_by-insert p k new ((i, old) ∷ dict) = ground (arith, count_by-insert p k new dict)

  count_by-remove-none :
      (p : V → Bool) (k : K) (dict : Dict K V) → lookup k dict ≡ none → remove k dict ≡ dict
  unfolding count_by remove lookup
  count_by-remove-none p k [] h = refl
  count_by-remove-none p k ((i, old) ∷ dict) h = ground (arith, count_by-remove-none p k dict)

  pub count_by-remove :
      (p : V → Bool) (k : K) (dict : Dict K V)
      → UniqueKeys dict
      → count_by p (remove k dict) + weight p (lookup k dict) ≡ count_by p dict
  unfolding count_by remove lookup
  count_by-remove p k [] u = omega arith
  count_by-remove p k ((i, old) ∷ dict) u =
      ground (arith, e.beq_iff i k, count_by-remove-none p k dict, count_by-remove p k dict u.1)

  -- A positive count has an entry that it counts.
  pub count_by-find :
      (p : V → Bool) (dict : Dict K V)
      → UniqueKeys dict
      → 0 < count_by p dict
      → (k : K) × (new : V) × (lookup k dict ≡ some new) × (p new ≡ true)
  unfolding count_by lookup
  count_by-find p [] u h = absurd (omega arith)
  count_by-find p ((i, old) ∷ dict) u h = elim (Bool-cases (p old)) [
    | inl t ↦ (i, old, ground (arith, e.beq_iff i i), t)
    | inr f ↦
        let (k, new, found, t) = count_by-find p dict u.1 (ground (arith, f)) in
        (k, new, ground (arith, found, e.beq_iff i k, u.0), t)
  ]

  pub count_by-pos :
      (p : V → Bool) (k : K) (dict : Dict K V) {new : V}
      → lookup k dict ≡ some new
      → p new ≡ true
      → 0 < count_by p dict
  unfolding count_by lookup
  count_by-pos p k [] h t = cc
  count_by-pos p k ((i, old) ∷ dict) {new} h t = ground (arith, count_by-pos p k dict {new = new})
