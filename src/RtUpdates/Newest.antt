-- ===== src/RtUpdates/Newest.antt =====
-- The newest row that passes a test (kirin/core/model.py: the queries of
-- `RealTimeUpdate.get_probes_by_contributor`).
use kirin.Prelude.{
  ltb_ℤ, none, some, List, [], ◌∷◌, Bool, true, false, string_eq, int_eq, ◌≡◌, refl, sym, ap, ◌∙◌,
  ◌⊎◌, inl, inr, arith, exists, All, All-map, Bool-cases, Option-cases, some_injective,
}
use kirin.RtUpdates.{RealTimeUpdate, later}
use kirin.RtUpdates.Probes.{newest}

pub newest-eq-none :
    (q : RealTimeUpdate → Bool) (rows : List RealTimeUpdate)
    → newest q rows ≡ none
    → All (λ r. q r ≡ false) rows
unfolding newest
newest-eq-none q [] h = tt
newest-eq-none q (r ∷ rest) h = elim (Bool-cases (q r)) [
  | inl e ↦ ground arith
  | inr e ↦ (e, newest-eq-none q rest (rw e at h))
]

-- The first row is the newest, or the newest of the others is at least as new.
newest-cons :
    (q : RealTimeUpdate → Bool) (r : RealTimeUpdate) (rest : List RealTimeUpdate)
    (row : RealTimeUpdate)
    → newest q (r ∷ rest) ≡ some row
    → ((r ≡ row)
        × (q r ≡ true)
        × ((newest q rest ≡ none)
            ⊎ ((b : RealTimeUpdate) × (newest q rest ≡ some b)
                × (ltb_ℤ r.created_at b.created_at ≡ false))))
      ⊎ ((newest q rest ≡ some row) × (q r ≡ true → ltb_ℤ r.created_at row.created_at ≡ true))
unfolding newest later
newest-cons q r rest row h = elim (Bool-cases (q r)) [
  | inr e ↦ inr (rw e at h, λ k. cc)
  | inl e ↦ elim (Option-cases (newest q rest)) [
    | inl n ↦ inl (some_injective (rw (e, n) at h), e, inl n)
    | inr (b, n) ↦ elim (Bool-cases (ltb_ℤ r.created_at b.created_at)) [
      | inl l ↦
          let same = some_injective (rw (e, n, l) at h) in
          inr (
            n ∙ ap some same,
            λ k. ap (λ (x : RealTimeUpdate). ltb_ℤ r.created_at x.created_at) (sym same) ∙ l,
          )
      | inr l ↦ inl (some_injective (rw (e, n, l) at h), e, inr (b, n, l))
    ]
  ]
]

pub newest-exists :
    (q p : RealTimeUpdate → Bool) (rows : List RealTimeUpdate) (row : RealTimeUpdate)
    → newest q rows ≡ some row
    → p row ≡ true
    → exists p rows ≡ true
unfolding newest exists
newest-exists q p [] row h k = ground arith
newest-exists q p (r ∷ rest) row h k = elim (newest-cons q r rest row h) [
  | inl (same, _, _) ↦ rw (ap p same, k) refl
  | inr (n, _) ↦ elim (Bool-cases (p r)) [
    | inl e ↦ rw e refl
    | inr e ↦ rw e (newest-exists q p rest row n k)
  ]
]

pub newest-passes :
    (q : RealTimeUpdate → Bool) (rows : List RealTimeUpdate) (row : RealTimeUpdate)
    → newest q rows ≡ some row
    → q row ≡ true
unfolding newest
newest-passes q [] row h = ground arith
newest-passes q (r ∷ rest) row h = elim (newest-cons q r rest row h) [
  | inl (same, e, _) ↦ ap q (sym same) ∙ e
  | inr (n, _) ↦ newest-passes q rest row n
]

pub newest-bound :
    (q : RealTimeUpdate → Bool) (rows : List RealTimeUpdate) (row : RealTimeUpdate)
    → newest q rows ≡ some row
    → All (λ r. q r ≡ true → ltb_ℤ row.created_at r.created_at ≡ false) rows
newest-bound q [] row h = tt
newest-bound q (r ∷ rest) row h = elim (newest-cons q r rest row h) [
  | inl (same, e, inl n) ↦ (
    λ k. rw (sym same) (ground arith),
    All-map (λ x. λ z. λ k. cc) rest (newest-eq-none q rest n),
  )
  | inl (same, e, inr (b, n, l)) ↦ (
    λ k. rw (sym same) (ground arith),
    All-map
        (λ (x : RealTimeUpdate). λ (z : q x ≡ true → ltb_ℤ b.created_at x.created_at ≡ false).
          λ k. let y = z k in rw (sym same) (ground arith))
        rest (newest-bound q rest b n),
  )
  | inr (n, f) ↦ (λ k. let l = f k in ground arith, newest-bound q rest row n)
]
