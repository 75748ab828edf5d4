-- ===== src/RtUpdates/Valid.antt =====
-- The last valid update that is known of a contributor (kirin/core/model.py:
-- `RealTimeUpdate.get_probes_by_contributor`).
use kirin.Prelude.{
  ℤ, ltb_ℤ, String, Option, none, some, List, [], ◌∷◌, Bool, true, false, ◌&&◌, if◌then◌else◌, ◌==◌,
  ==_iff, ==_refl, string_eq, int_eq, ◌≡◌, refl, sym, ◌⊎◌, inl, inr, arith, exists, All, All-map,
  Bool-cases, Option-cases,
}
use kirin.RtUpdates.{RealTimeUpdate}
use kirin.RtUpdates.Probes.{
  newest, is_of, is_valid, Probes, probe_valid, probe_row, probe_contributors, update_date,
  get_probes_by_contributor,
}
use mathlib.Core.Path.{subst}
use kirin.RtUpdates.Newest.{newest-eq-none, newest-exists, newest-passes, newest-bound}
use kirin.Contributors.Rows.{Contributor, has_id, query_existing}

-- The value of a key.
abbrev pub lookup : String → List (String × ℤ) → Option ℤ
lookup key [] = none
lookup key (item ∷ items) = if item.0 == key then some item.1 else lookup key items

-- The date is the latest creation of the rows that pass the test, and there is none if no row passes.
abbrev pub IsLatest : (RealTimeUpdate → Bool) → List RealTimeUpdate → Option ℤ → Type 0
IsLatest q rows none = All (λ r. q r ≡ false) rows
IsLatest q rows (some date) =
    (exists (λ r. q r && r.created_at == date) rows ≡ true)
    × All (λ r. q r ≡ true → ltb_ℤ date r.created_at ≡ false) rows

abbrev pub valid_of : String → RealTimeUpdate → Bool
valid_of id r = is_of id r && is_valid r

-- Nothing is known yet, or what is true.
abbrev Known : String → List RealTimeUpdate → Probes → Type 0
Known id rows result =
    (lookup id result.last_valid_update ≡ none)
    ⊎ IsLatest (valid_of id) rows (lookup id result.last_valid_update)

newest-IsLatest :
    (id : String) (rows : List RealTimeUpdate) (row : RealTimeUpdate) (items : List (String × ℤ))
    → newest (valid_of id) rows ≡ some row
    → IsLatest (valid_of id) rows (lookup id ((id, row.created_at) ∷ items))
newest-IsLatest id rows row items h = rw (==_refl id) (
  newest-exists (valid_of id) (λ r. valid_of id r && r.created_at == row.created_at) rows row h
      (rw (newest-passes (valid_of id) rows row h, ==_refl row.created_at) refl),
  newest-bound (valid_of id) rows row h,
)

-- The newest row of all is the newest valid one if it is valid.
newest_of-IsLatest :
    (id : String) (rows : List RealTimeUpdate) (row : RealTimeUpdate) (items : List (String × ℤ))
    → newest (is_of id) rows ≡ some row
    → is_valid row ≡ true
    → IsLatest (valid_of id) rows (lookup id ((id, row.created_at) ∷ items))
newest_of-IsLatest id rows row items h v = rw (==_refl id) (
  newest-exists (is_of id) (λ r. valid_of id r && r.created_at == row.created_at) rows row h
      (rw (newest-passes (is_of id) rows row h, v, ==_refl row.created_at) refl),
  All-map
      (λ r. λ (z : is_of id r ≡ true → ltb_ℤ row.created_at r.created_at ≡ false).
        λ k. z (ground arith))
      rows (newest-bound (is_of id) rows row h),
)

kept-IsLatest :
    (id : String) (rows : List RealTimeUpdate) (o : Option ℤ)
    → All (λ r. valid_of id r ≡ false) rows
    → (o ≡ none) ⊎ IsLatest (valid_of id) rows o
    → IsLatest (valid_of id) rows o
kept-IsLatest id rows o h (inl e) = rw e h
kept-IsLatest id rows o h (inr l) = l

probe_row-own :
    (id : String) (rows : List RealTimeUpdate) (result : Probes)
    → Known id rows result
    → IsLatest
        (valid_of id)
        rows
        (lookup id (probe_row (newest (is_of id) rows) id rows result).last_valid_update)
unfolding probe_row probe_valid
probe_row-own id rows result k = elim (Option-cases (newest (is_of id) rows)) [
  | inl n ↦
      let none_valid =
        All-map (λ r. λ (z : is_of id r ≡ false). rw z refl) rows
          (newest-eq-none (is_of id) rows n) in
      rw n (kept-IsLatest id rows (lookup id result.last_valid_update) none_valid k)
  | inr (row, n) ↦ elim (Bool-cases (is_valid row)) [
    | inl v ↦ rw (n, v) (newest_of-IsLatest id rows row result.last_valid_update n v)
    | inr v ↦ elim (Option-cases (newest (valid_of id) rows)) [
      | inl m ↦
          rw (n, v, m)
            (kept-IsLatest id rows (lookup id result.last_valid_update)
              (newest-eq-none (valid_of id) rows m) k)
      | inr (row_ok, m) ↦ rw (n, v, m) (newest-IsLatest id rows row_ok result.last_valid_update m)
    ]
  ]
]

probe_valid-other :
    (id other : String) (o : Option RealTimeUpdate) (result : Probes)
    → (other == id) ≡ false
    → lookup id (probe_valid o other result).last_valid_update ≡ lookup id result.last_valid_update
unfolding probe_valid
probe_valid-other id other none result h = refl
probe_valid-other id other (some row) result h = rw h refl

abbrev dated : String → RealTimeUpdate → Probes → Probes
dated c_id row result = record result {
  last_update = (c_id, update_date row.updated_at row.created_at) ∷ result.last_update;
}

probe_row-other :
    (id other : String) (o : Option RealTimeUpdate) (rows : List RealTimeUpdate) (result : Probes)
    → (other == id) ≡ false
    → lookup id (probe_row o other rows result).last_valid_update
      ≡ lookup id result.last_valid_update
unfolding probe_row
probe_row-other id other none rows result h = refl
probe_row-other id other (some row) rows result h = elim (Bool-cases (is_valid row)) [
  | inl v ↦ rw v (probe_valid-other id other (some row) (dated other row result) h)
  | inr v ↦
      let noted : Probes = record (dated other row result) {
        last_update_error = (other, row.error) ∷ result.last_update_error;
      } in
      rw v (probe_valid-other id other (newest (λ r. is_of other r && is_valid r) rows) noted h)
]

-- The key of the row.
probe_row-same :
    (id other : String) (rows : List RealTimeUpdate) (result : Probes)
    → (other == id) ≡ true
    → Known id rows result
    → IsLatest
        (valid_of id)
        rows
        (lookup id (probe_row (newest (is_of other) rows) other rows result).last_valid_update)
probe_row-same id other rows result e k =
    subst
      (λ c.
        IsLatest (valid_of id) rows
          (lookup id (probe_row (newest (is_of c) rows) c rows result).last_valid_update))
      (sym ((==_iff other id).0 e)) (probe_row-own id rows result k)

-- What is true of what is known and of the latest date stays true.
probe_row-keeps :
    (P : Option ℤ → Type 0) (id other : String) (rows : List RealTimeUpdate) (result : Probes)
    → ((o : Option ℤ) → IsLatest (valid_of id) rows o → P o)
    → Known id rows result
    → P (lookup id result.last_valid_update)
    → P (lookup id (probe_row (newest (is_of other) rows) other rows result).last_valid_update)
probe_row-keeps P id other rows result f k p = elim (Bool-cases (other == id)) [
  | inl e ↦ f _ (probe_row-same id other rows result e k)
  | inr e ↦ subst P (sym (probe_row-other id other (newest (is_of other) rows) rows result e)) p
]

probe_contributors-keeps :
    (id : String) (contributors : List Contributor) (rows : List RealTimeUpdate) (result : Probes)
    → IsLatest (valid_of id) rows (lookup id result.last_valid_update)
    → IsLatest
        (valid_of id)
        rows
        (lookup id (probe_contributors contributors rows result).last_valid_update)
unfolding probe_contributors
probe_contributors-keeps id [] rows result k = k
probe_contributors-keeps id (c ∷ rest) rows result k =
    probe_contributors-keeps id rest rows (probe_row (newest (is_of c.id) rows) c.id rows result)
      (probe_row-keeps (IsLatest (valid_of id) rows) id c.id rows result (λ o. λ l. l) (inr k) k)

probe_contributors-IsLatest :
    (id : String) (contributors : List Contributor) (rows : List RealTimeUpdate) (result : Probes)
    → exists (has_id id) contributors ≡ true
    → Known id rows result
    → IsLatest
        (valid_of id)
        rows
        (lookup id (probe_contributors contributors rows result).last_valid_update)
unfolding probe_contributors exists
probe_contributors-IsLatest id [] rows result h k = cc
probe_contributors-IsLatest id (c ∷ rest) rows result h k =
    let next = probe_row (newest (is_of c.id) rows) c.id rows result in
    elim (Bool-cases (c.id == id)) [
      | inl e ↦ probe_contributors-keeps id rest rows next (probe_row-same id c.id rows result e k)
      | inr e ↦ probe_contributors-IsLatest id rest rows next (rw e at h) (
          probe_row-keeps (λ o. (o ≡ none) ⊎ IsLatest (valid_of id) rows o) id c.id rows result
            (λ o. λ l. inr l) k k)
    ]

-- The last valid update that is told of an active contributor is the latest creation of its updates
-- with the status OK, whatever the status of its newest one, and none is told exactly if it has no
-- such update.
pub get_probes_by_contributor-IsLatest :
    (id : String) (contributors : List Contributor) (rows : List RealTimeUpdate)
    → exists (has_id id) (query_existing contributors) ≡ true
    → IsLatest
        (valid_of id)
        rows
        (lookup id (get_probes_by_contributor contributors rows).last_valid_update)
unfolding get_probes_by_contributor
get_probes_by_contributor-IsLatest id contributors rows h =
    probe_contributors-IsLatest id (query_existing contributors) rows _ h (inl refl)
