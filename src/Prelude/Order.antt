-- ===== src/Prelude/Order.antt =====
-- `sort.Strings`: the byte order of texts, and sorting. In UTF-8 the order of bytes is the order of
-- code points.
use Prim.Native.Char.{code}
use Prim.Native.String.{String}
use goppstats.Prelude.Tests.{ltb, nat_beq, if◌then◌else◌}
use mathlib.Core.Path.{◌≡◌, refl, ap₂, ◌∙◌}
use mathlib.Core.Logic.{∥∥₁_elim}
use mathlib.Core.Bool.{Bool, true, false}
use mathlib.Core.List.{List, [], ◌∷◌, Perm, Permᴰ}
use native.Mathlib.Omega.{arith}
use text.Mathlib.TextEquality.{Char-path, IsScalar-prop}

-- The type of what is sorted, with the order that the sort uses.
pub record Ord (A : Type 0) : Type 0 where
  pub before : A → A → Bool
  pub total : (a b : A) → before a b ≡ false → before b a ≡ true
  pub antisym : (a b : A) → before a b ≡ true → before b a ≡ true → a ≡ b
  pub trans : (a b c : A) → before a b ≡ true → before b c ≡ true → before a c ≡ true

module _ {A : Type 0} ⦃o : Ord A⦄ where
  place : A → List A → List A
  place a [] = a ∷ []
  place a (b ∷ l) = if o.before a b then a ∷ b ∷ l else b ∷ place a l

  unfoldable pub sort : List A → List A
  unfolding place
  sort [] = []
  sort (a ∷ l) = place a (sort l)

  place_comm : (a b : A) (l : List A) → place a (place b l) ≡ place b (place a l)
  unfolding place
  place_comm a b [] = ground (arith, o.total a b, o.total b a, o.antisym a b)
  place_comm a b (c ∷ l) = ground (
    arith,
    o.total a b,
    o.total b a,
    o.antisym a b,
    o.trans a b c,
    o.trans b a c,
    place_comm a b l,
  )

  sort-permᴰ : {xs ys : List A} → Permᴰ xs ys → sort xs ≡ sort ys
  unfolding sort
  sort-permᴰ Permᴰ.nil = refl
  sort-permᴰ (Permᴰ.cons {a = a} {b = b} {l₁ = l} {l₂ = m} e p) = cc (ap₂ place e (sort-permᴰ p))
  sort-permᴰ (Permᴰ.swap {a = a} {b = b} {l = l} d e) =
      place_comm a b (sort l) ∙ ap₂ (λ x y. place x (place y (sort l))) e d
  sort-permᴰ (Permᴰ.trans p q) = sort-permᴰ p ∙ sort-permᴰ q

unfoldable pub text_before : String → String → Bool
text_before String.[] t = true
text_before (String.◌∷◌ c s) String.[] = false
text_before (String.◌∷◌ c s) (String.◌∷◌ d t) =
    if ltb (code c) (code d)
    then true
    else if nat_beq (code c) (code d)
    then text_before s t
    else false

pub text_total : (s t : String) → text_before s t ≡ false → text_before t s ≡ true
unfolding text_before
text_total String.[] t h = ground arith
text_total (String.◌∷◌ c s) String.[] h = refl
text_total (String.◌∷◌ c s) (String.◌∷◌ d t) h = ground (arith, text_total s t)

pub text_antisym : (s t : String) → text_before s t ≡ true → text_before t s ≡ true → s ≡ t
unfolding text_before
text_antisym String.[] String.[] h k = refl
text_antisym String.[] (String.◌∷◌ d t) h k = ground arith
text_antisym (String.◌∷◌ c s) String.[] h k = ground arith
text_antisym (String.◌∷◌ c s) (String.◌∷◌ d t) h k =
    ap₂ String.◌∷◌ (Char-path c d (ground arith)) (text_antisym s t (ground arith) (ground arith))

pub text_trans :
    (s t u : String) → text_before s t ≡ true → text_before t u ≡ true → text_before s u ≡ true
unfolding text_before
text_trans String.[] t u h k = refl
text_trans (String.◌∷◌ c s) String.[] u h k = ground arith
text_trans (String.◌∷◌ c s) (String.◌∷◌ d t) String.[] h k = ground arith
text_trans (String.◌∷◌ c s) (String.◌∷◌ d t) (String.◌∷◌ x u) h k = ground (arith, text_trans s t u)

instance abbrev pub text_ord : Ord String
text_ord = record {
  before = text_before;
  total = text_total;
  antisym = text_antisym;
  trans = text_trans;
}

texts_set : IsSet (List String)
texts_set = hlevel IsScalar-prop

-- Sorting texts gives the same list from any order of them.
pub sort-perm : {xs ys : List String} → Perm xs ys → sort xs ≡ sort ys
sort-perm {xs} {ys} p = ∥∥₁_elim p (texts_set (sort xs) (sort ys)) sort-permᴰ
