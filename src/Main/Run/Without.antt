-- ===== src/Main/Run/Without.antt =====
-- A list of collectors without those that have ended.
use goppstats.Prelude.{
  ℕ, List, [], ◌∷◌, ◌≡◌, ◌≢◌, refl, arith, ◌==◌, nat_eq, In, inl, inr, Bool-cases,
}
use goppstats.Main.Run.{without}

unfoldable pub all_without : List ℕ → List ℕ → List ℕ
all_without [] cs = cs
all_without (c ∷ more) cs = all_without more (without c cs)

pub In-without : (x c : ℕ) (cs : List ℕ) → In x (without c cs) → In x cs × (x ≢ c)
unfolding without
In-without x c [] m = elim m [ ]
In-without x c (y ∷ cs) m = elim (Bool-cases (y == c)) [
  | inl e ↦ let (i, d) = In-without x c cs (rw (e, without) at m) in (inr i, d)
  | inr e ↦
      let kept : In x (y ∷ without c cs) = rw (e, without) at m in
      elim kept [
        | inl q ↦ (inl q, λ r. ground (arith, e, q, r, nat_eq.beq_iff y c))
        | inr n ↦ let (i, d) = In-without x c cs n in (inr i, d)
      ]
]

-- Nothing is left of a list without all that it holds.
pub all_without-none : (cs xs : List ℕ) → ((x : ℕ) → In x xs → In x cs) → all_without cs xs ≡ []
unfolding all_without
all_without-none [] [] sub = refl
all_without-none [] (x ∷ xs) sub = elim (sub x (inl refl)) [ ]
all_without-none (c ∷ more) xs sub = all_without-none more (without c xs) (λ x m.
    let (i, d) = In-without x c xs m in elim (sub x i) [ inl q ↦ elim (d q) [ ] | inr n ↦ n ])
