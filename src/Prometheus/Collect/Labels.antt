-- ===== src/Prometheus/Collect/Labels.antt =====
-- The labels with which a family is described to the client library.
use goppstats.Prelude.{
  String, List, [], ◌∷◌, ◌≡◌, refl, ◌↔◌, some, Bool, true, false, arith, ◌==◌, string_eq,
  if◌then◌else◌, In, Bool-cases, ◌⊎◌, inl, inr, sym, subst,
}
use goppstats.Prelude.Int.{ℤ, pos, ltb_ℤ}
use goppstats.Prelude.Dict.{Dict, lookup, UniqueKeys, count_by-find, count_by-pos}
use goppstats.Prometheus.{Sample, MetricFamily}
use goppstats.Prometheus.Samples.{count_of}
use goppstats.Prometheus.Samples.Counts.{IsCounted, carries}
use goppstats.Prometheus.Collect.{label_names}

abbrev positive : ℤ → Bool
positive v = ltb_ℤ (pos 0) v

In-if_self : (b : Bool) (k : String) (l : List String) → b ≡ true → In k (if b then k ∷ l else l)
In-if_self true k l h = inl refl
In-if_self false k l h = cc

In-if_rest : (b : Bool) (j k : String) (l : List String) → In k l → In k (if b then j ∷ l else l)
In-if_rest true j k l h = inr h
In-if_rest false j k l h = h

In-if_inv :
    (b : Bool) (j k : String) (l : List String)
    → In k (if b then j ∷ l else l)
    → ((k ≡ j) × (b ≡ true)) ⊎ In k l
In-if_inv true j k l (inl e) = inl (e, refl)
In-if_inv true j k l (inr h) = inr h
In-if_inv false j k l h = inr h

In-label_names :
    (m : Dict String ℤ) (k : String)
    → positive (count_of (lookup k m)) ≡ true
    → In k (label_names m)
unfolding label_names lookup
In-label_names [] k h = ground arith
In-label_names ((j, v) ∷ m) k h = elim (Bool-cases (j == k)) [
  | inl t ↦
      subst (λ x. In k (if positive v then x ∷ label_names m else label_names m))
        (sym ((string_eq.beq_iff j k).0 t))
        (In-if_self (positive v) k (label_names m) (ground (arith, t)))
  | inr f ↦ In-if_rest (positive v) j k (label_names m) (In-label_names m k (ground (arith, f)))
]

label_names-positive :
    (m : Dict String ℤ) (k : String)
    → UniqueKeys m
    → In k (label_names m)
    → positive (count_of (lookup k m)) ≡ true
unfolding label_names lookup
label_names-positive [] k u h = elim h [ ]
label_names-positive ((j, v) ∷ m) k u h = elim (In-if_inv (positive v) j k (label_names m) h) [
  | inl (e, t) ↦ ground (arith, string_eq.beq_iff j k)
  | inr r ↦ ground (arith, label_names-positive m k u.1 r, string_eq.beq_iff j k)
]

abbrev pub Distinct : List String → Type 0
Distinct [] = Unit
Distinct (x ∷ xs) = (¬ In x xs) × Distinct xs

label_names-Distinct : (m : Dict String ℤ) → UniqueKeys m → Distinct (label_names m)
unfolding label_names lookup
label_names-Distinct [] u = tt
label_names-Distinct ((j, v) ∷ m) u = elim (Bool-cases (positive v)) [
  | inl t ↦ rw t (λ h. ground (arith, label_names-positive m j u.1 h), label_names-Distinct m u.1)
  | inr f ↦ rw f (label_names-Distinct m u.1)
]

module _ {Float64 : Type 0} (fam : MetricFamily Float64) where
  -- Some sample of the family carries the label.
  abbrev pub IsCarried : String → Type 0
  IsCarried k =
      (id : String) × (s : Sample Float64) × (lookup id fam.samples ≡ some s) × (carries k s ≡ true)

  -- A family whose counts are right is described with the labels that its samples carry: none is left
  -- out, no other is there, and none is there twice.
  pub label_names_lem :
      IsCounted fam
      → Distinct (label_names fam.label_set)
        × ((k : String) → In k (label_names fam.label_set) ↔ IsCarried k)
  label_names_lem c = (
    label_names-Distinct fam.label_set c.set_unique,
    λ k. (
      λ h.
          count_by-find (carries k) fam.samples c.unique
            (ground (arith, c.counted k, label_names-positive fam.label_set k c.set_unique h)),
      λ (id, s, e, t).
          In-label_names fam.label_set k
            (ground (arith, c.counted k, count_by-pos (carries k) id fam.samples e t)),
    ),
  )
