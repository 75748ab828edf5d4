-- ===== src/Prelude/Sorting.antt =====
-- Python's stable `sorted(l, key=...)` for a key that is a number.
use Prim.Native.Nat.{ℕ, ◌≤◌}
use mathlib.Core.Logic.{inl, inr}
use mathlib.Core.List.{List, [], ◌∷◌, Perm}
use mathlib.Core.List.Perm
use native.Mathlib.Omega.{arith}
use kirin.Prelude.Tests.{if◌then◌else◌, leb, Bool-cases}
use kirin.Prelude.Lists.{All, All-map}

module _ {A : Type 0} (key : A → ℕ) where
  unfoldable pub insert_by : A → List A → List A
  insert_by x [] = x ∷ []
  insert_by x (y ∷ ys) =
      let rest = insert_by x ys in if leb (key x) (key y) then x ∷ y ∷ ys else y ∷ rest

  unfoldable pub sorted_by : List A → List A
  unfolding insert_by
  sorted_by [] = []
  sorted_by (x ∷ xs) = insert_by x (sorted_by xs)

  -- No element is before one with a smaller key.
  abbrev pub SortedBy : List A → Type 0
  SortedBy [] = Unit
  SortedBy (x ∷ xs) = All (λ y. key x ≤ key y) xs × SortedBy xs

module _ {A : Type 0} (key : A → ℕ) where
  insert_by-Perm : (x : A) (ys : List A) → Perm (insert_by key x ys) (x ∷ ys)
  unfolding insert_by
  insert_by-Perm x [] = Perm.refl _
  insert_by-Perm x (y ∷ ys) = elim (Bool-cases (leb (key x) (key y))) [
    | inl e ↦ rw e (Perm.refl _)
    | inr e ↦ rw e (Perm.trans (Perm.cons y (insert_by-Perm x ys)) (Perm.swap x y ys))
  ]

  pub sorted_by-Perm : (xs : List A) → Perm (sorted_by key xs) xs
  unfolding sorted_by
  sorted_by-Perm [] = Perm.refl _
  sorted_by-Perm (x ∷ xs) =
      Perm.trans (insert_by-Perm x (sorted_by key xs)) (Perm.cons x (sorted_by-Perm xs))

  insert_by-All :
      (P : A → Type 0) (x : A) (ys : List A) → P x → All P ys → All P (insert_by key x ys)
  unfolding insert_by
  insert_by-All P x [] p h = (p, tt)
  insert_by-All P x (y ∷ ys) p h = elim (Bool-cases (leb (key x) (key y))) [
    | inl e ↦ rw e (p, h)
    | inr e ↦ rw e (h.0, insert_by-All P x ys p h.1)
  ]

  insert_by-SortedBy : (x : A) (ys : List A) → SortedBy key ys → SortedBy key (insert_by key x ys)
  unfolding insert_by
  insert_by-SortedBy x [] h = (tt, tt)
  insert_by-SortedBy x (y ∷ ys) h = elim (Bool-cases (leb (key x) (key y))) [
    | inl e ↦
        let le : key x ≤ key y = ground arith in
        rw e ((le, All-map (λ z. λ (q : key y ≤ key z). omega arith) ys h.0), h)
    | inr e ↦
        let le : key y ≤ key x = ground arith in
        rw e (insert_by-All (λ z. key y ≤ key z) x ys le h.0, insert_by-SortedBy x ys h.1)
  ]

  pub sorted_by-SortedBy : (xs : List A) → SortedBy key (sorted_by key xs)
  unfolding sorted_by
  sorted_by-SortedBy [] = tt
  sorted_by-SortedBy (x ∷ xs) = insert_by-SortedBy x (sorted_by key xs) (sorted_by-SortedBy xs)
