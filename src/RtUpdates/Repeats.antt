-- ===== src/RtUpdates/Repeats.antt =====
-- Repeated errors (kirin/utils.py: `manage_db_error`).
use kirin.Prelude.{
  ℕ, ℤ, ltb_ℤ, ◌≤ℤ◌, String, Option, none, some, List, [], ◌∷◌, map, Bool, true, false, ◌&&◌,
  if◌then◌else◌, ◌==◌, ==_refl, string_eq, option_eq, nat_eq, ◌≡◌, refl, ap, ◌∙◌, arith, Bool-cases,
  Option-cases, inl, inr, All, length, suc,
}
use kirin.Types.{ConnectorType, gtfs_rt, cots, piv}
use kirin.RtUpdates.{
  RtStatus, rt_ok, rt_ko, pending, poked, RealTimeUpdate, Store, connector_beq, rt_status_beq,
  later, last_of, flush, assign, assign_in, allow_reprocess_same_data, set_rtu_status_ko,
  make_rt_update, db_commit, save_rt_data_with_error, poke_updated_at, get_last_rtu, is_same_error,
  manage_db_error,
}
use kirin.RtUpdates.Latest.{Keeps, flush-Keeps, assign-Keeps, last_of-map}

-- No row is created after this moment.
abbrev pub IsPast : ℤ → Store → Type 0
IsPast now s = All (λ (r : RealTimeUpdate). r.created_at ≤ℤ now) s.real_time_updates

last_of-past :
    (now : ℤ) (c : ConnectorType) (id : String) (rows : List RealTimeUpdate) (last : RealTimeUpdate)
    → All (λ (r : RealTimeUpdate). r.created_at ≤ℤ now) rows
    → last_of c id rows ≡ some last
    → last.created_at ≤ℤ now
unfolding last_of later
last_of-past now c id [] last h e = cc
last_of-past now c id (r ∷ rest) last h e =
    elim (Bool-cases (connector_beq r.connector c && r.contributor_id == id)) [
      | inl b ↦ elim (Option-cases (last_of c id rest)) [
        | inl n ↦ ground arith
        | inr (x, q) ↦ let ih = last_of-past now c id rest x h.1 q in ground arith
      ]
      | inr b ↦ last_of-past now c id rest last h.1 (rw b at e)
    ]

-- The row that has just been inserted is the last one.
last_of-inserted :
    (c : ConnectorType) (new : RealTimeUpdate) (rows : List RealTimeUpdate)
    → connector_beq new.connector c ≡ true
    → All (λ (r : RealTimeUpdate). r.created_at ≤ℤ new.created_at) rows
    → last_of c new.contributor_id (new ∷ rows) ≡ some new
unfolding last_of later
last_of-inserted c new rows hc h = elim (Option-cases (last_of c new.contributor_id rows)) [
  | inl n ↦ rw (hc, ==_refl new.contributor_id, n) refl
  | inr (x, q) ↦
      let le = last_of-past new.created_at c new.contributor_id rows x h q in
      let e : ltb_ℤ new.created_at x.created_at ≡ false = ground arith in
      rw (hc, ==_refl new.contributor_id, q, e) refl
]

-- One row through the two commits of `poke_updated_at`.
poke_row : ℤ → RealTimeUpdate → RealTimeUpdate → RealTimeUpdate
poke_row now last r = flush now (
    assign last.id last.status last.error
      (flush now (assign last.id (poked last.status) last.error r)))

-- An assignment that changes the status, and the commit after it.
pub flush-assign :
    (now : ℤ) (status : RtStatus) (error : Option String) (r : RealTimeUpdate)
    → rt_status_beq r.status status ≡ false
    → flush now (assign r.id status error r)
      ≡ record r { status = status; error = error; updated_at = some now; modified = false }
unfolding flush assign
flush-assign now status error r h = elim (Bool-cases r.modified) [
  | inl m ↦ rw (==_refl r.id, h, m) refl
  | inr m ↦ rw (==_refl r.id, h, m) refl
]

poked-differs :
    (s : RtStatus) → (rt_status_beq s (poked s) ≡ false) × (rt_status_beq (poked s) s ≡ false)
unfolding poked
poked-differs rt_ok = (refl, refl)
poked-differs rt_ko = (refl, refl)
poked-differs pending = (refl, refl)

poke_row-last :
    (now : ℤ) (last : RealTimeUpdate)
    → poke_row now last last ≡ record last { updated_at = some now; modified = false }
unfolding poke_row
poke_row-last now last =
    let (a, b) = poked-differs last.status in
    let p = flush-assign now (poked last.status) last.error last a in
    let between : RealTimeUpdate = record last {
      status = poked last.status;
      updated_at = some now;
      modified = false;
    } in
    ap (λ r. flush now (assign last.id last.status last.error r)) p
    ∙ flush-assign now last.status last.error between b

last_of-poke :
    (now : ℤ) (c : ConnectorType) (cid : String) (s : Store) (last : RealTimeUpdate)
    → get_last_rtu c cid s ≡ some last
    → get_last_rtu c cid (poke_updated_at now (some last) s) ≡ some (poke_row now last last)
unfolding get_last_rtu poke_updated_at db_commit assign_in poke_row
last_of-poke now c cid s last e =
    let rows = s.real_time_updates in
    let a1 = assign last.id (poked last.status) last.error in
    let a2 = assign last.id last.status last.error in
    let m1 = last_of-map a1 (assign-Keeps last.id (poked last.status) last.error) c cid rows in
    let m2 = last_of-map (flush now) (flush-Keeps now) c cid (map a1 rows) in
    let m3 =
      last_of-map a2 (assign-Keeps last.id last.status last.error) c cid
        (map (flush now) (map a1 rows)) in
    let m4 =
      last_of-map (flush now) (flush-Keeps now) c cid (map a2 (map (flush now) (map a1 rows))) in
    rw (m4, m3, m2, m1, e) refl

-- What the last row tells once an error has been managed.
abbrev pub Tells : ℤ → String → String → Option RealTimeUpdate → Type 0
Tells now data_ error last =
    (r : RealTimeUpdate) × (last ≡ some r)
    × (is_same_error data_ error r ≡ true)
    × (r.updated_at ≡ some now)

All-past-map :
    (f : RealTimeUpdate → RealTimeUpdate) (now : ℤ)
    → Keeps f
    → (rows : List RealTimeUpdate) → All (λ (r : RealTimeUpdate). r.created_at ≤ℤ now) rows
    → All (λ (r : RealTimeUpdate). r.created_at ≤ℤ now) (map f rows)
All-past-map f now k [] h = tt
All-past-map f now k (r ∷ rows) h = let (c, i, t) = k r in (rw t h.0, All-past-map f now k rows h.1)

connector_beq_refl : (c : ConnectorType) → connector_beq c c ≡ true
connector_beq_refl gtfs_rt = refl
connector_beq_refl cots = refl
connector_beq_refl piv = refl

set_rtu_status_ko-rows :
    (id : ℕ) (cid error : String) (allowed : Bool) (s : Store)
    → (set_rtu_status_ko id cid error allowed s).real_time_updates
      ≡ map (assign id rt_ko (some error)) s.real_time_updates
unfolding set_rtu_status_ko assign_in allow_reprocess_same_data
set_rtu_status_ko-rows id cid error true s = refl
set_rtu_status_ko-rows id cid error false s = refl

save_rt_data_with_error-Tells :
    (now : ℤ) (id : ℕ) (data_ : String) (c : ConnectorType) (cid error : String) (allowed : Bool)
    (s : Store)
    → IsPast now s
    → Tells now data_ error
        (get_last_rtu c cid (save_rt_data_with_error now id data_ c cid error allowed s))
unfolding get_last_rtu save_rt_data_with_error db_commit make_rt_update is_same_error
save_rt_data_with_error-Tells now id data_ c cid error allowed s h =
    let made = make_rt_update now id data_ c cid rt_ok s in
    let new : RealTimeUpdate = record {
      id = id;
      connector = c;
      status = rt_ok;
      error = none;
      raw_data = data_;
      contributor_id = cid;
      created_at = now;
      updated_at = some now;
      modified = false;
    } in
    let rows = map (flush now) s.real_time_updates in
    let m0 = set_rtu_status_ko-rows id cid error allowed made in
    let m1 =
      last_of-inserted c new rows (connector_beq_refl c)
        (All-past-map (flush now) now (flush-Keeps now) s.real_time_updates h) in
    let a = assign id rt_ko (some error) in
    let m2 = last_of-map a (assign-Keeps id rt_ko (some error)) c cid (new ∷ rows) in
    let m3 = last_of-map (flush now) (flush-Keeps now) c cid (map a (new ∷ rows)) in
    let p = flush-assign now rt_ko (some error) new refl in
    (
      record new { status = rt_ko; error = some error },
      rw (m0, m3, m2, m1) (ap some p),
      rw (==_refl error, ==_refl data_) refl,
      refl,
    )

touched-last :
    (c : ConnectorType) (cid : String) (allowed : Bool) (s : Store)
    → get_last_rtu c cid (if allowed then allow_reprocess_same_data cid s else s)
      ≡ get_last_rtu c cid s
unfolding get_last_rtu allow_reprocess_same_data
touched-last c cid true s = refl
touched-last c cid false s = refl

-- After an error is managed, whatever its branch, the last row of this connector and contributor
-- tells this error and these data, and was updated at that moment, provided that no row was created
-- later.
pub manage_db_error-Tells :
    (now : ℤ) (id : ℕ) (data_ : String) (c : ConnectorType) (cid error : String) (allowed : Bool)
    (s : Store)
    → IsPast now s
    → Tells now data_ error
        (get_last_rtu c cid (manage_db_error now id data_ c cid error allowed s))
unfolding manage_db_error is_same_error
manage_db_error-Tells now id data_ c cid error allowed s h =
    let saved = save_rt_data_with_error-Tells now id data_ c cid error allowed s h in
    elim (Option-cases (get_last_rtu c cid s)) [
      | inl e ↦ rw (manage_db_error, e) saved
      | inr (last, e) ↦ elim (Bool-cases (is_same_error data_ error last)) [
        | inl b ↦
            let p = last_of-poke now c cid s last e ∙ ap some (poke_row-last now last) in
            rw (manage_db_error, e, b)
              (
                record last { updated_at = some now; modified = false },
                touched-last c cid allowed (poke_updated_at now (some last) s) ∙ p,
                b,
                refl,
              )
        | inr b ↦ rw (manage_db_error, e, b) saved
      ]
    ]

pub length-map :
    (f : RealTimeUpdate → RealTimeUpdate) (rows : List RealTimeUpdate)
    → length (map f rows) ≡ length rows
unfolding length
length-map f [] = refl
length-map f (r ∷ rows) = ap suc (length-map f rows)

poke_updated_at-length :
    (now : ℤ) (last : RealTimeUpdate) (s : Store)
    → length (poke_updated_at now (some last) s).real_time_updates ≡ length s.real_time_updates
unfolding poke_updated_at db_commit assign_in
poke_updated_at-length now last s =
    rw (length-map _ _, length-map _ _, length-map _ _) (length-map _ _)

pub known_error-length :
    (now : ℤ) (id : ℕ) (data_ : String) (c : ConnectorType) (cid error : String) (allowed : Bool)
    (s : Store) (last : RealTimeUpdate)
    → get_last_rtu c cid s ≡ some last
    → is_same_error data_ error last ≡ true
    → length (manage_db_error now id data_ c cid error allowed s).real_time_updates
      ≡ length s.real_time_updates
unfolding manage_db_error allow_reprocess_same_data
known_error-length now id data_ c cid error true s last e b =
    rw (manage_db_error, e, b) (poke_updated_at-length now last s)
known_error-length now id data_ c cid error false s last e b =
    rw (manage_db_error, e, b) (poke_updated_at-length now last s)

-- The same error on the same data, managed again at any later time and under any fresh id, adds no
-- row, provided that no row was created after the first time.
pub manage_db_error_repeated :
    (now now' : ℤ) (id id' : ℕ) (data_ : String) (c : ConnectorType) (cid error : String)
    (allowed : Bool) (s : Store)
    → IsPast now s
    → let after = manage_db_error now id data_ c cid error allowed s in
      length (manage_db_error now' id' data_ c cid error allowed after).real_time_updates
      ≡ length after.real_time_updates
manage_db_error_repeated now now' id id' data_ c cid error allowed s h =
    let (last, e, b, u) = manage_db_error-Tells now id data_ c cid error allowed s h in
    known_error-length now' id' data_ c cid error allowed
      (manage_db_error now id data_ c cid error allowed s) last e b
