-- ===== src/Prelude/Selecting.antt =====
-- What a selection keeps of a list.
use mathlib.Core.Path.{◌≡◌, refl}
use mathlib.Core.Logic.{inl, inr}
use mathlib.Core.Bool.{Bool, true, false}
use mathlib.Core.List.{List, [], ◌∷◌}
use native.Mathlib.Omega.{arith}
use kirin.Prelude.Tests.{Bool-cases}
use kirin.Prelude.Lists.{All, exists, select}

module _ {A : Type 0} where
  pub All-select : (P : A → Type 0) (q : A → Bool) (xs : List A) → All P xs → All P (select q xs)
  unfolding select
  All-select P q [] h = tt
  All-select P q (x ∷ xs) h = elim (Bool-cases (q x)) [
    | inl e ↦ rw e (h.0, All-select P q xs h.1)
    | inr e ↦ rw e (All-select P q xs h.1)
  ]

  -- What is selected passes the test.
  pub All-select_test : (q : A → Bool) (xs : List A) → All (λ x. q x ≡ true) (select q xs)
  unfolding select
  All-select_test q [] = tt
  All-select_test q (x ∷ xs) = elim (Bool-cases (q x)) [
    | inl e ↦ rw e (e, All-select_test q xs)
    | inr e ↦ rw e (All-select_test q xs)
  ]

  pub exists-select :
      (p q : A → Bool) (xs : List A)
      → ((x : A) → p x ≡ true → q x ≡ true)
      → exists p xs ≡ true
      → exists p (select q xs) ≡ true
  unfolding exists select
  exists-select p q [] k h = cc
  exists-select p q (x ∷ xs) k h = elim (Bool-cases (p x)) [
    | inl e ↦ rw (k x e, e) refl
    | inr e ↦ elim (Bool-cases (q x)) [
      | inl f ↦ rw (f, e) (exists-select p q xs k (rw e at h))
      | inr f ↦ rw f (exists-select p q xs k (rw e at h))
    ]
  ]

  pub All-not_exists :
      (p : A → Bool) (xs : List A) → exists p xs ≡ false → All (λ x. p x ≡ false) xs
  unfolding exists
  All-not_exists p [] h = tt
  All-not_exists p (x ∷ xs) h = elim (Bool-cases (p x)) [
    | inl e ↦ ground arith
    | inr e ↦ (e, All-not_exists p xs (rw e at h))
  ]
