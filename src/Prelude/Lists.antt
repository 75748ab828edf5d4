-- ===== src/Prelude/Lists.antt =====
-- Lists measured by native numbers, Python's `next((x for x in l if p(x)), None)`, and predicates
-- on lists by recursion.
use Prim.Native.Nat.{ℕ, suc, ◌+◌}
use mathlib.Core.Path.{◌≡◌, refl, subst}
use mathlib.Core.Bool.{Bool, true, false, ◌||◌}
use mathlib.Core.List.{List, [], ◌∷◌, ◌++◌, append_assoc, reverse, map, map-append, reverse-cons}
use mathlib.Core.Option.{Option, none, some}
use native.Mathlib.Omega.{arith}
use mathlib.Core.Logic.{inl, inr}
use kirin.Prelude.Tests.{if◌then◌else◌, Bool-cases}

module _ {ℓ} {A : Type ℓ} where
  abbrev pub length : List A → ℕ
  length [] = 0
  length (x ∷ xs) = suc (length xs)

  -- The first element that passes the test.
  unfoldable pub find_first : (A → Bool) → List A → Option A
  find_first p [] = none
  find_first p (x ∷ xs) = if p x then some x else find_first p xs

  -- Some element passes the test.
  unfoldable pub exists : (A → Bool) → List A → Bool
  exists p [] = false
  exists p (x ∷ xs) = if p x then true else exists p xs

  abbrev pub All {κ} : (A → Type κ) → List A → Type κ
  All P [] = Unit
  All P (x ∷ xs) = P x × All P xs

  -- `enumerate(l)`, started at `i`.
  unfoldable pub enumerate : ℕ → List A → List (ℕ × A)
  enumerate i [] = []
  enumerate i (x ∷ xs) = (i, x) ∷ enumerate (i + 1) xs

module _ {ℓ} {A : Type ℓ} where
  -- The elements that pass the test.
  unfoldable pub select : (A → Bool) → List A → List A
  select p [] = []
  select p (x ∷ xs) = let rest = select p xs in if p x then x ∷ rest else rest

module _ {ℓ} {A : Type ℓ} where
  pub length-append : (xs ys : List A) → length (xs ++ ys) ≡ length xs + length ys
  length-append [] ys = omega arith
  length-append (x ∷ xs) ys = omega (arith, length-append xs ys)

  pub find_first-passes :
      (p : A → Bool) (xs : List A) (x : A) → find_first p xs ≡ some x → p x ≡ true
  unfolding find_first
  find_first-passes p [] x h = cc
  find_first-passes p (y ∷ xs) x h = ground (arith, find_first-passes p xs x)

  pub find_first-eq-none :
      (p : A → Bool) (xs : List A) → find_first p xs ≡ none → exists p xs ≡ false
  unfolding find_first exists
  find_first-eq-none p [] h = refl
  find_first-eq-none p (y ∷ xs) h = ground (arith, find_first-eq-none p xs)

  pub find_first-eq-some :
      (p : A → Bool) (xs : List A) → exists p xs ≡ true → (x : A) × (find_first p xs ≡ some x)
  unfolding find_first exists
  find_first-eq-some p [] h = cc
  find_first-eq-some p (y ∷ xs) h = elim (Bool-cases (p y)) [
    | inl e ↦ (y, rw e)
    | inr e ↦ let (x, q) = find_first-eq-some p xs (ground arith) in (x, rw e q)
  ]

  pub All-append {κ} : (P : A → Type κ) (xs ys : List A) → All P xs → All P ys → All P (xs ++ ys)
  All-append P [] ys h k = k
  All-append P (x ∷ xs) ys h k = (h.0, All-append P xs ys h.1 k)

  exists-append_cons :
      (p : A → Bool) (pre : List A) (x : A) (xs : List A)
      → p x ≡ true
      → exists p (pre ++ x ∷ xs) ≡ true
  unfolding exists
  exists-append_cons p [] x xs h = rw h
  exists-append_cons p (y ∷ pre) x xs h = ground (arith, exists-append_cons p pre x xs)

  exists_from :
      (q : A → A → Bool) (pre xs : List A)
      → ((x : A) → q x x ≡ true)
      → All (λ x. exists (q x) (pre ++ xs) ≡ true) xs
  exists_from q pre [] h = tt
  exists_from q pre (x ∷ xs) h = (
    exists-append_cons (q x) pre x xs (h x),
    rw append_assoc at (exists_from q (pre ++ x ∷ []) xs h),
  )

  -- In a list each element is found by a test that it passes itself.
  pub All-exists_self :
      (q : A → A → Bool) (xs : List A)
      → ((x : A) → q x x ≡ true)
      → All (λ x. exists (q x) xs ≡ true) xs
  All-exists_self q xs h = exists_from q [] xs h

  pub All-map {κ μ} :
      {P : A → Type κ} {Q : A → Type μ}
      → ((a : A) → P a → Q a)
      → (xs : List A) → All P xs
      → All Q xs
  All-map f [] h = tt
  All-map f (x ∷ xs) h = (f x h.0, All-map f xs h.1)

  pub All-zip {κ μ} :
      (P : A → Type κ) (Q : A → Type μ) (xs : List A)
      → All P xs
      → All Q xs
      → All (λ x. P x × Q x) xs
  All-zip P Q [] h k = tt
  All-zip P Q (x ∷ xs) h k = ((h.0, k.0), All-zip P Q xs h.1 k.1)

  -- What is found has what all elements have.
  pub find_first-All {κ} :
      (P : A → Type κ) (p : A → Bool) (xs : List A) (x : A)
      → All P xs
      → find_first p xs ≡ some x
      → P x
  unfolding find_first
  find_first-All P p [] x h e = cc
  find_first-All P p (y ∷ xs) x h e = elim (Bool-cases (p y)) [
    | inl q ↦ let r : y ≡ x = ground arith in subst P r h.0
    | inr q ↦ find_first-All P p xs x h.1 (ground arith)
  ]

module _ {ℓ} {A : Type ℓ} where
  pub length-reverse : (xs : List A) → length (reverse xs) ≡ length xs
  length-reverse [] = refl
  length-reverse (x ∷ xs) =
      rw (reverse-cons x xs) (omega (arith, length-append (reverse xs) (x ∷ []), length-reverse xs))

  pub map-reverse {κ} :
      {B : Type κ} (f : A → B) (xs : List A) → map f (reverse xs) ≡ reverse (map f xs)
  map-reverse f [] = refl
  map-reverse f (x ∷ xs) =
      rw (reverse-cons x xs, reverse-cons (f x) (map f xs), map-append, map-reverse f xs)

  pub exists-append :
      (p : A → Bool) (xs ys : List A) → exists p (xs ++ ys) ≡ (exists p xs || exists p ys)
  unfolding exists
  exists-append p [] ys = refl
  exists-append p (x ∷ xs) ys = ground (arith, exists-append p xs ys)

  pub exists-reverse : (p : A → Bool) (xs : List A) → exists p (reverse xs) ≡ exists p xs
  unfolding exists
  exists-reverse p [] = refl
  exists-reverse p (x ∷ xs) =
      rw (reverse-cons x xs, exists-append p (reverse xs) (x ∷ []), exists-reverse p xs)
        (ground arith)
