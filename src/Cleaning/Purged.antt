-- ===== src/Cleaning/Purged.antt =====
-- What is left after the trip updates of a contributor are purged (kirin/tasks.py:
-- `purge_trip_update`).
use kirin.Prelude.{
  string_eq, exists-select, All-exists_self, ==_iff, ltb_ℤ, not, ◌&&◌, ◌∙◌, All-select,
  All-select_test, ℤ, ◌-ℤ◌, String, none, some, List, [], ◌∷◌, Bool, true, false, not, ◌≡◌, refl,
  sym, arith, ◌⊎◌, exists, select, All, All-map, All-zip, Bool-cases, inl, inr, ◌==◌, ==_refl,
  nat_eq,
}
use mathlib.Core.Path.{subst}
use kirin.Model.{combine}
use kirin.Cleaning.Database.{
  starts_from, starts_before, TripUpdateRow, Database, is_in_period, find_by_contributor_period,
  remove_trip_update, remove_all, remove_by_contributors_and_period,
}
use kirin.Cleaning.Tasks.{purge_trip_update}

module _ {A : Type 0} (q : A → A → Bool) (p : A → Bool) (reflexive : (x : A) → q x x ≡ true) where
  abbrev Selected : List A → A → Type 0
  Selected l x = (p x ≡ false) ⊎ (exists (q x) l ≡ true)

  Selected-cons : (y : A) (l : List A) (x : A) → Selected l x → Selected (y ∷ l) x
  unfolding exists
  Selected-cons y l x (inl h) = inl h
  Selected-cons y l x (inr h) = inr (ground arith)

  found_self : (x : A) (l : List A) → exists (q x) (x ∷ l) ≡ true
  unfolding exists
  found_self x l = rw (reflexive x) refl

  select-true : (x : A) (xs : List A) → p x ≡ true → select p (x ∷ xs) ≡ x ∷ select p xs
  unfolding select
  select-true x xs e = rw e refl

  select-false : (x : A) (xs : List A) → p x ≡ false → select p (x ∷ xs) ≡ select p xs
  unfolding select
  select-false x xs e = rw e refl

  -- What passes the test is found in the selection.
  All-Selected : (xs : List A) → All (Selected (select p xs)) xs
  All-Selected [] = tt
  All-Selected (x ∷ xs) = elim (Bool-cases (p x)) [
    | inr e ↦
        subst (λ l. All (Selected l) (x ∷ xs)) (sym (select-false x xs e)) (inl e, All-Selected xs)
    | inl e ↦
        subst (λ l. All (Selected l) (x ∷ xs)) (sym (select-true x xs e))
          (
            inr (found_self x (select p xs)),
            All-map (λ y. Selected-cons x (select p xs) y) xs (All-Selected xs),
          )
  ]

abbrev same_row : TripUpdateRow → TripUpdateRow → Bool
same_row row t = row.vj_id == t.vj_id

remove_all-All :
    (P : TripUpdateRow → Type 0) (ts : List TripUpdateRow) (db : Database)
    → All P db.trip_updates
    → All P (remove_all ts db).trip_updates
unfolding remove_all remove_trip_update
remove_all-All P [] db h = h
remove_all-All P (t ∷ ts) db h =
    remove_all-All P ts (remove_trip_update t db) (All-select P _ db.trip_updates h)

All-trivial : (rows : List TripUpdateRow) → All (λ row. exists (same_row row) [] ≡ false) rows
unfolding exists
All-trivial [] = tt
All-trivial (row ∷ rows) = (refl, All-trivial rows)

not_selected :
    (p : TripUpdateRow → Bool) (ts : List TripUpdateRow) (row : TripUpdateRow)
    → (p row ≡ false) ⊎ (exists (same_row row) ts ≡ true)
    → exists (same_row row) ts ≡ false
    → p row ≡ false
not_selected p ts row (inl h) k = h
not_selected p ts row (inr h) k = cc

remove_all-gone :
    (ts : List TripUpdateRow) (db : Database)
    → All (λ row. exists (same_row row) ts ≡ false) (remove_all ts db).trip_updates
unfolding remove_all remove_trip_update exists
remove_all-gone [] db = All-trivial db.trip_updates
remove_all-gone (t ∷ ts) db =
    let rest = remove_trip_update t db in
    let other =
      remove_all-All (λ row. not (row.vj_id == t.vj_id) ≡ true) ts rest
        (All-select_test (λ (row : TripUpdateRow). not (row.vj_id == t.vj_id)) db.trip_updates) in
    All-map (λ row. λ (k : _ × _). ground arith) (remove_all ts rest).trip_updates
      (All-zip _ _ (remove_all ts rest).trip_updates other (remove_all-gone ts rest))

remove_all-kept :
    (ts : List TripUpdateRow) (db : Database) (row : TripUpdateRow)
    → exists (same_row row) ts ≡ false
    → exists (same_row row) db.trip_updates ≡ true
    → exists (same_row row) (remove_all ts db).trip_updates ≡ true
unfolding remove_all remove_trip_update exists
remove_all-kept [] db row n h = h
remove_all-kept (t ∷ ts) db row n h =
    remove_all-kept ts (remove_trip_update t db) row (ground arith) (
      exists-select (same_row row) (λ (x : TripUpdateRow). not (x.vj_id == t.vj_id)) db.trip_updates
        (λ x. λ e. rw (sym ((==_iff row.vj_id x.vj_id).0 e)) (ground arith)) h)

-- A trip update of the contributor whose trip starts before the day.
abbrev pub is_old : String → ℤ → TripUpdateRow → Bool
is_old contributor date row =
    row.trip_update.contributor_id == contributor
    && ltb_ℤ row.trip_update.vj.start_timestamp (combine date 0)

is_in_period-old :
    (contributor : String) (date : ℤ) (row : TripUpdateRow)
    → is_in_period (contributor ∷ []) none (some date) row ≡ is_old contributor date row
unfolding is_in_period starts_from starts_before exists
is_in_period-old contributor date row = ground (
  arith,
  ==_iff contributor row.trip_update.contributor_id,
  ==_iff row.trip_update.contributor_id contributor,
)

exists-select_old :
    (contributor : String) (date : ℤ) (row : TripUpdateRow) (rows : List TripUpdateRow)
    → exists (same_row row) (select (is_in_period (contributor ∷ []) none (some date)) rows)
      ≡ exists (λ t. is_old contributor date t && same_row row t) rows
unfolding exists select
exists-select_old contributor date row [] = refl
exists-select_old contributor date row (t ∷ rows) =
    let ih = exists-select_old contributor date row rows in
    elim (Bool-cases (is_in_period (contributor ∷ []) none (some date) t)) [
      | inl e ↦ rw (e, sym (is_in_period-old contributor date t) ∙ e, ih) refl
      | inr e ↦ rw (e, sym (is_in_period-old contributor date t) ∙ e, ih) refl
    ]

-- What a purge leaves: nothing that is old, and every row whose key is not that of an old one.
abbrev pub IsPurged : String → ℤ → Database → Database → Type 0
IsPurged contributor date before after =
    All (λ row. is_old contributor date row ≡ false) after.trip_updates
    × All
        (λ row.
          exists (λ t. is_old contributor date t && same_row row t) before.trip_updates ≡ false
          → exists (same_row row) after.trip_updates ≡ true)
        before.trip_updates

-- A purge of trip updates that has got the lock removes all trip updates of the contributor whose trip
-- starts before the first day that is kept, and no row whose key is not that of one of these.
pub purge_trip_update_removes :
    (today : ℤ) (contributor : String) (nb_days_to_keep : ℤ) (db : Database)
    → IsPurged contributor
        (today -ℤ nb_days_to_keep)
        db
        (purge_trip_update true today contributor nb_days_to_keep db)
unfolding purge_trip_update remove_by_contributors_and_period find_by_contributor_period
purge_trip_update_removes today contributor nb_days_to_keep db =
    let date = today -ℤ nb_days_to_keep in
    let p = is_in_period (contributor ∷ []) none (some date) in
    let ts = select p db.trip_updates in
    let left = (remove_all ts db).trip_updates in
    let known =
      remove_all-All (Selected same_row p (λ row. ==_refl row.vj_id) ts) ts db
        (All-Selected same_row p (λ row. ==_refl row.vj_id) db.trip_updates) in
    (
      All-map
          (λ row. λ (k : _ × _).
            sym (is_in_period-old contributor date row) ∙ not_selected p ts row k.0 k.1)
          left (All-zip _ _ left known (remove_all-gone ts db)),
      All-map
          (λ row. λ (h : exists (same_row row) db.trip_updates ≡ true). λ n.
            remove_all-kept ts db row (exists-select_old contributor date row db.trip_updates ∙ n)
              h)
          db.trip_updates (All-exists_self same_row db.trip_updates (λ row. ==_refl row.vj_id)),
    )
