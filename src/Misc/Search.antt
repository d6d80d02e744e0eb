-- ===== src/Misc/Search.antt =====
-- The first number that passes a test, and all of them, among so many numbers from one on.
use reapi.Prelude.{
  ℕ, zero, suc, ◌+◌, ◌-◌, ◌≤◌, ◌<◌, ◌≡◌, refl, ap, ap₂, subst, ◌∙◌, inl, inr, Bool, Option, none,
  some, List, [], ◌∷◌, arith, if◌then◌else◌, Bool-cases, some_inj,
}

-- The first match among so many entities from one on, and all of them.
abbrev pub first_match : (ℕ → Bool) → ℕ → ℕ → Option ℕ
first_match test zero i = none
first_match test (suc n) i = if test i then some i else first_match test n (suc i)

abbrev pub all_matches : (ℕ → Bool) → ℕ → ℕ → List ℕ
all_matches test zero i = []
all_matches test (suc n) i =
    let rest = all_matches test n (suc i) in if test i then i ∷ rest else rest

-- What the first match says of all of them.
pub first_match-none :
    (test : ℕ → Bool) (n i : ℕ) → first_match test n i ≡ none → all_matches test n i ≡ []
first_match-none test zero i h = refl
first_match-none test (suc n) i h = ground (arith, first_match-none test n (suc i))

pub first_match-some :
    (test : ℕ → Bool) (n i j : ℕ)
    → first_match test n i ≡ some j
    → (i ≤ j) × (j < i + n) × (all_matches test n i ≡ j ∷ all_matches test (i + n - suc j) (suc j))
first_match-some test zero i j h = ground arith
first_match-some test (suc n) i j h =
    let before = λ (b : Bool). (if b then some i else first_match test n (suc i)) ≡ some j in
    elim (Bool-cases (test i)) [
      | inl hit ↦ rw hit (at_first n i j (some_inj i j (subst before hit h)))
      | inr miss ↦ rw miss (
          let (ge, lt, e) = first_match-some test n (suc i) j (subst before miss h) in
          (omega arith, omega arith, e ∙ ap (λ k. j ∷ all_matches test k (suc j)) (omega arith)))
    ]
  where
    at_first :
        (n i j : ℕ)
        → i ≡ j
        → (i ≤ j)
          × (j < i + suc n)
          × (i ∷ all_matches test n (suc i) ≡ j ∷ all_matches test (i + suc n - suc j) (suc j))
    at_first n i j e =
        (omega arith, omega arith, ap₂ (λ k l. k ∷ all_matches test l (suc k)) e (omega arith))
