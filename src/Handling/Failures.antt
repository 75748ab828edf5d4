-- ===== src/Handling/Failures.antt =====
-- What a feed that raises leaves (kirin/core/build_wrapper.py: the `except` clause of `wrap_build`).
use kirin.Prelude.{
  ℕ, ℤ, String, Option, none, some, List, [], ◌∷◌, map, Bool, true, false, not, ◌&&◌, ◌||◌,
  option_eq, ◌==◌, ==_refl, string_eq, nat_eq, Result, ok, err, Exception, ◌≡◌, refl, arith,
  Bool-cases, inl, inr, All,
}
use kirin.Feed.{PbTripUpdate}
use kirin.RtUpdates.{
  RtStatus, rt_status_beq, RealTimeUpdate, flush, assign, assign_in, db_commit, set_rtu_status_ko,
  allow_reprocess_same_data, remove_key,
}
use kirin.RtUpdates.Memory.{is_remembered, remove_key-is_remembered}
use kirin.Handling.{
  Builder, World, is_invalid_input_exception, settle_failure, finish_call, process_rt_update,
  wrap_build,
}

-- A row of this id is KO with this error.
abbrev pub is_ko : ℕ → String → RealTimeUpdate → Bool
is_ko id error r =
    not (r.id == id) || (rt_status_beq r.status RtStatus.rt_ko && r.error == some error)

flush-assign-is_ko :
    (now : ℤ) (id : ℕ) (error : String) (r : RealTimeUpdate)
    → is_ko id error (flush now (assign id RtStatus.rt_ko (some error) r)) ≡ true
unfolding flush assign
flush-assign-is_ko now id error r =
    let same = ==_refl error in
    elim (Bool-cases (r.id == id)) [ inl b ↦ ground arith | inr b ↦ ground arith ]

All-ko :
    (now : ℤ) (id : ℕ) (error : String) (rows : List RealTimeUpdate)
    → All
        (λ r. is_ko id error r ≡ true)
        (map (flush now) (map (assign id RtStatus.rt_ko (some error)) rows))
All-ko now id error [] = tt
All-ko now id error (r ∷ rows) = (flush-assign-is_ko now id error r, All-ko now id error rows)

-- The traces of a failure in the database and in redis, against what was there before it.
abbrev pub Traced :
    {P : Type 0} → Builder P → (Exception → String) → Option ℕ → Exception → World → World → Type 0
Traced builder error_text none e before w =
    is_remembered builder.contributor_id w.store.etags ≡ false
Traced builder error_text (some id) e before w =
    All (λ r. is_ko id (error_text e) r ≡ true) w.store.real_time_updates
    × (is_remembered builder.contributor_id w.store.etags
        ≡ (is_invalid_input_exception e && is_remembered builder.contributor_id before.store.etags))

forgotten :
    (contributor_id : String) (keys : List (String × String))
    → is_remembered contributor_id (remove_key contributor_id keys) ≡ false
forgotten contributor_id keys =
    rw (remove_key-is_remembered contributor_id contributor_id keys, ==_refl contributor_id) refl

settle_failure-Traced :
    {P : Type 0} (builder : Builder P) (error_text : Exception → String) (now : ℤ)
    (rt_update : Option ℕ) (e : Exception) (w : World)
    → Traced builder error_text rt_update e w (settle_failure builder error_text now rt_update e w)
unfolding settle_failure set_rtu_status_ko assign_in allow_reprocess_same_data db_commit
settle_failure-Traced builder error_text now none e w =
    forgotten builder.contributor_id w.store.etags
settle_failure-Traced builder error_text now (some id) e w =
    let ko = All-ko now id (error_text e) w.store.real_time_updates in
    elim (Bool-cases (is_invalid_input_exception e)) [
      | inl b ↦ rw (settle_failure, b) (ko, refl)
      | inr b ↦ rw (settle_failure, b) (ko, forgotten builder.contributor_id w.store.etags)
    ]

finish_call-Traced :
    {P : Type 0} (builder : Builder P) (error_text : Exception → String) (now : ℤ) (w : World)
    (rt_update : Option ℕ) (r : Result (Unit {0})) (e : Exception)
    → (finish_call builder error_text now w rt_update r).1 ≡ err e
    → Traced builder error_text rt_update e w (finish_call builder error_text now w rt_update r).0
unfolding finish_call
finish_call-Traced builder error_text now w rt_update (ok t) e h = cc
finish_call-Traced builder error_text now w rt_update (err e') e h =
    let q : e' ≡ e = cc in rw (← q) (settle_failure-Traced builder error_text now rt_update e' w)

-- For any builder, broker and feed that ends with an exception: if its update was built, the rows
-- with its id are KO with the text of the exception, and the ETag of the contributor's last call is
-- forgotten, or for an invalid input left as the body of the call left it; if its update was not
-- built, the ETag is forgotten.
pub wrap_build_failure :
    {P : Type 0} (builder : Builder P) (broker : List PbTripUpdate → Bool)
    (error_text : Exception → String) (now : ℤ) (input_raw : String) (w : World) (e : Exception)
    → (wrap_build builder broker error_text now input_raw w).1 ≡ err e
    → let p = process_rt_update builder broker now w (builder.build_rt_update input_raw w.store) in
      Traced builder error_text p.rt_update e p.world
        (wrap_build builder broker error_text now input_raw w).0
unfolding wrap_build
wrap_build_failure builder broker error_text now input_raw w e h =
    let p = process_rt_update builder broker now w (builder.build_rt_update input_raw w.store) in
    finish_call-Traced builder error_text now p.world p.rt_update p.reply e h
