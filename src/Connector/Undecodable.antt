-- ===== src/Connector/Undecodable.antt =====
-- A GTFS-RT feed that cannot be decoded, from end to end (kirin/gtfs_rt/model_maker.py:
-- `build_rt_update` and `build_trip_updates`, under kirin/core/build_wrapper.py: `wrap_build`).
use kirin.Prelude.{
  ℕ, ℤ, String, none, some, List, ◌∷◌, length, map, Bool, true, false, ◌==◌, ==_refl, string_eq,
  nat_eq, option_eq, err, Exception, invalid_arguments, ◌≡◌, refl, ◌∙◌, arith, Bool-cases, inl, inr,
}
use kirin.Types.{ConnectorType}
use kirin.Feed.{PbTripUpdate}
use kirin.RtUpdates.{
  RtStatus, RealTimeUpdate, Store, flush, assign, db_commit, assign_in, set_rtu_status_ko,
  manage_db_error, get_last_rtu, is_same_error,
}
use kirin.RtUpdates.Latest.{last_of-map, flush-Keeps, assign-Keeps}
use kirin.RtUpdates.Repeats.{IsPast, manage_db_error-Tells, known_error-length, length-map}
use kirin.Handling.{
  World, warning, wrap_build, process_rt_update, process_trip_updates, finish_call, settle_failure,
  is_invalid_input_exception,
}
use kirin.Connector.{
  Setting, record_feed, managed_id, build_rt_update, build_trip_updates, gtfs_rt_builder,
}

-- The store after a call on a feed that cannot be decoded.
undecodable_store : Setting → (Exception → String) → String → Store → Store
undecodable_store cfg error_text input_raw s =
    let data_ = cfg.escaped input_raw in
    let id =
      managed_id cfg.new_id data_ "invalid protobuf"
        (get_last_rtu ConnectorType.gtfs_rt cfg.contributor_id s) in
    db_commit cfg.now (
      set_rtu_status_ko id cfg.contributor_id (error_text invalid_arguments) false (
        manage_db_error cfg.now cfg.new_id data_ ConnectorType.gtfs_rt cfg.contributor_id
          "invalid protobuf" false s))

undecodable_call :
    (cfg : Setting) (broker : List PbTripUpdate → Bool) (error_text : Exception → String)
    (input_raw : String) (w : World)
    → cfg.parse input_raw ≡ none
    → wrap_build (gtfs_rt_builder cfg) broker error_text cfg.now input_raw w ≡ (
      record w {
        store = undecodable_store cfg error_text input_raw w.store;
        calls = warning ∷ w.calls;
      },
      err invalid_arguments,
    )
unfolding wrap_build process_rt_update process_trip_updates finish_call settle_failure
    is_invalid_input_exception gtfs_rt_builder build_rt_update build_trip_updates record_feed
    undecodable_store
undecodable_call cfg broker error_text input_raw w h = rw h refl

settled_row-is_same_error :
    (now : ℤ) (id : ℕ) (data_ error : String) (r : RealTimeUpdate)
    → is_same_error data_ error r ≡ true
    → is_same_error data_ error (flush now (assign id RtStatus.rt_ko (some error) r)) ≡ true
unfolding is_same_error flush assign
settled_row-is_same_error now id data_ error r h =
    let same = ==_refl error in
    elim (Bool-cases (r.id == id)) [ inl b ↦ ground arith | inr b ↦ ground arith ]

-- The settling of the failure leaves the last row with the same error.
settled_last :
    (now : ℤ) (id : ℕ) (data_ error cid : String) (c : ConnectorType) (s : Store)
    (last : RealTimeUpdate)
    → get_last_rtu c cid s ≡ some last
    → get_last_rtu c cid (db_commit now (set_rtu_status_ko id cid error false s))
      ≡ some (flush now (assign id RtStatus.rt_ko (some error) last))
unfolding get_last_rtu db_commit set_rtu_status_ko assign_in
settled_last now id data_ error cid c s last e =
    let a = assign id RtStatus.rt_ko (some error) in
    let m1 =
      last_of-map a (assign-Keeps id RtStatus.rt_ko (some error)) c cid s.real_time_updates in
    let m2 = last_of-map (flush now) (flush-Keeps now) c cid (map a s.real_time_updates) in
    rw (m2, m1, e) refl

undecodable_store-last :
    (cfg : Setting) (error_text : Exception → String) (input_raw : String) (s : Store)
    → error_text invalid_arguments ≡ "invalid protobuf"
    → IsPast cfg.now s
    → (r : RealTimeUpdate) × (get_last_rtu ConnectorType.gtfs_rt cfg.contributor_id
          (undecodable_store cfg error_text input_raw s)
        ≡ some r)
      × (is_same_error (cfg.escaped input_raw) "invalid protobuf" r ≡ true)
unfolding undecodable_store
undecodable_store-last cfg error_text input_raw s t h =
    let data_ = cfg.escaped input_raw in
    let id =
      managed_id cfg.new_id data_ "invalid protobuf"
        (get_last_rtu ConnectorType.gtfs_rt cfg.contributor_id s) in
    let managed =
      manage_db_error cfg.now cfg.new_id data_ ConnectorType.gtfs_rt cfg.contributor_id
        "invalid protobuf" false s in
    let (last, e, b, u) =
      manage_db_error-Tells cfg.now cfg.new_id data_ ConnectorType.gtfs_rt cfg.contributor_id
        "invalid protobuf" false s h in
    (
      flush cfg.now (assign id RtStatus.rt_ko (some "invalid protobuf") last),
      rw t (
          settled_last cfg.now id data_ "invalid protobuf" cfg.contributor_id ConnectorType.gtfs_rt
            managed last e),
      settled_row-is_same_error cfg.now id data_ "invalid protobuf" last b,
    )

undecodable_store-length :
    (cfg : Setting) (error_text : Exception → String) (input_raw : String) (s : Store)
    → length (undecodable_store cfg error_text input_raw s).real_time_updates
      ≡ length
          (manage_db_error cfg.now cfg.new_id
            (cfg.escaped input_raw)
            ConnectorType.gtfs_rt
            cfg.contributor_id
            "invalid protobuf"
            false
            s).real_time_updates
unfolding undecodable_store db_commit set_rtu_status_ko assign_in
undecodable_store-length cfg error_text input_raw s = rw (length-map _ _) (length-map _ _)

-- The same call at a later time, with another id for a row.
abbrev pub later_call : Setting → ℤ → ℕ → Setting
later_call cfg now new_id = record cfg { now = now; new_id = new_id }

-- A feed that cannot be decoded is recorded as a warning, raises an invalid input and publishes
-- nothing. If the text of that exception is the one that the builder has recorded, and no row was
-- created after the first call, the same feed received again later adds no row.
pub undecodable_twice :
    (cfg : Setting) (broker : List PbTripUpdate → Bool) (error_text : Exception → String)
    (input_raw : String) (w : World) (now' : ℤ) (id' : ℕ)
    → cfg.parse input_raw ≡ none
    → error_text invalid_arguments ≡ "invalid protobuf"
    → IsPast cfg.now w.store
    → let first = wrap_build (gtfs_rt_builder cfg) broker error_text cfg.now input_raw w in
      let again =
        wrap_build
          (gtfs_rt_builder (later_call cfg now' id'))
          broker
          error_text
          now'
          input_raw
          first.0 in
      (first.1 ≡ err invalid_arguments)
      × (first.0.calls ≡ warning ∷ w.calls)
      × (first.0.published ≡ w.published)
      × (length again.0.store.real_time_updates ≡ length first.0.store.real_time_updates)
undecodable_twice cfg broker error_text input_raw w now' id' h t p =
    let cfg' = later_call cfg now' id' in
    let s1 = undecodable_store cfg error_text input_raw w.store in
    let w1 = record w { store = s1; calls = warning ∷ w.calls } in
    let (r, e, b) = undecodable_store-last cfg error_text input_raw w.store t p in
    rw
      (
        undecodable_call cfg broker error_text input_raw w h,
        undecodable_call cfg' broker error_text input_raw w1 h,
      )
      (
        refl,
        refl,
        refl,
        undecodable_store-length cfg' error_text input_raw s1
            ∙ known_error-length now' id' (cfg.escaped input_raw) ConnectorType.gtfs_rt
                cfg.contributor_id "invalid protobuf" false s1 r e b,
      )
