-- ===== src/Prelude/Lists.antt =====
-- Lists measured by native numbers, membership as a recursive predicate, and Boolean search.
use Prim.Native.Nat.{ℕ, suc}
use mathlib.Core.Path.{◌≡◌, refl, ap, sym, subst}
use mathlib.Core.Bool.{Bool, true, false, ◌||◌}
use native.Mathlib.Omega.{arith}
use goppstats.Prelude.Tests.{Bool-cases, Eq, ◌==◌}
use mathlib.Core.Logic.{◌⊎◌, inl, inr}
use mathlib.Core.List.{List, [], ◌∷◌, ◌++◌, map}

module _ {A : Type 0} where
  abbrev pub length : List A → ℕ
  length [] = 0
  length (x ∷ xs) = suc (length xs)

  -- `a` stands in the list.
  abbrev pub In : A → List A → Type 0
  In a [] = ⊥
  In a (x ∷ xs) = (a ≡ x) ⊎ In a xs

  pub In-append_left : (a : A) (xs ys : List A) → In a xs → In a (xs ++ ys)
  In-append_left a [] ys h = elim h [ ]
  In-append_left a (x ∷ xs) ys (inl e) = inl e
  In-append_left a (x ∷ xs) ys (inr h) = inr (In-append_left a xs ys h)

-- Every member of the list has the property; it computes to a tuple.
abbrev pub All : {A : Type 0} → (A → Type 0) → List A → Type 0
All P [] = Unit
All P (x ∷ xs) = P x × All P xs

pub All-In : {A : Type 0} (P : A → Type 0) (xs : List A) (a : A) → All P xs → In a xs → P a
All-In P [] a h m = elim m [ ]
All-In P (x ∷ xs) a h (inl e) = subst P (sym e) h.0
All-In P (x ∷ xs) a h (inr m) = All-In P xs a h.1 m

-- The Boolean search.
module _ {A : Type 0} ⦃e : Eq A⦄ where
  abbrev pub contains : A → List A → Bool
  contains a [] = false
  contains a (x ∷ xs) = x == a || contains a xs

  pub contains-In : (a : A) (xs : List A) → In a xs → contains a xs ≡ true
  contains-In a [] m = elim m [ ]
  contains-In a (x ∷ xs) (inl p) = ground (arith, e.beq_iff x a)
  contains-In a (x ∷ xs) (inr m) = ground (arith, contains-In a xs m)

  pub In-contains : (a : A) (xs : List A) → contains a xs ≡ true → In a xs
  In-contains a [] h = let no : ⊥ = ground (arith, h) in elim no [ ]
  In-contains a (x ∷ xs) h = elim (Bool-cases (x == a)) [
    | inl q ↦ inl (sym ((e.beq_iff x a).0 q))
    | inr q ↦ inr (In-contains a xs (ground (arith, h, q)))
  ]

pub length-map : {A B : Type 0} (f : A → B) (l : List A) → length (map f l) ≡ length l
length-map f [] = refl
length-map f (x ∷ l) = ap suc (length-map f l)

module _ {A : Type 0} where
  pub In-append_right : (a : A) (xs ys : List A) → In a ys → In a (xs ++ ys)
  In-append_right a [] ys h = h
  In-append_right a (x ∷ xs) ys h = inr (In-append_right a xs ys h)
