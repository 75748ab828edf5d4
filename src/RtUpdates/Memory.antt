-- ===== src/RtUpdates/Memory.antt =====
-- What redis remembers after an error (kirin/utils.py: `manage_db_error` and what it calls).
use kirin.Prelude.{
  ℕ, ℤ, String, List, [], ◌∷◌, Bool, false, not, ◌&&◌, if◌then◌else◌, ◌==◌, ==_iff, string_eq,
  option_eq, nat_eq, ◌≡◌, refl, sym, ap, ◌∙◌, arith, Bool-cases, inl, inr, exists,
}
use kirin.Types.{ConnectorType}
use kirin.RtUpdates.{
  Store, remove_key, allow_reprocess_same_data, set_rtu_status_ko, assign_in, make_rt_update,
  db_commit, save_rt_data_with_error, poke_updated_at, manage_db_error,
}

-- The ETag of the contributor's last call is remembered.
abbrev pub is_remembered : String → List (String × String) → Bool
is_remembered contributor_id keys = exists (λ k. k.0 == contributor_id) keys

pub remove_key-is_remembered :
    (removed contributor_id : String) (keys : List (String × String))
    → is_remembered contributor_id (remove_key removed keys)
      ≡ (not (contributor_id == removed) && is_remembered contributor_id keys)
unfolding remove_key exists
remove_key-is_remembered removed contributor_id [] = elim (Bool-cases (contributor_id == removed)) [
  | inl b ↦ rw b refl
  | inr b ↦ rw b refl
]
remove_key-is_remembered removed contributor_id (k ∷ keys) =
    let ih = remove_key-is_remembered removed contributor_id keys in
    elim (Bool-cases (k.0 == removed)) [
      | inl b ↦ elim (Bool-cases (k.0 == contributor_id)) [
        | inl d ↦
            let e =
              (==_iff contributor_id removed).1
                (sym ((==_iff k.0 contributor_id).0 d) ∙ (==_iff k.0 removed).0 b) in
            rw (b, ih, d, e) refl
        | inr d ↦ rw (b, ih, d) refl
      ]
      | inr b ↦ elim (Bool-cases (k.0 == contributor_id)) [
        | inl d ↦
            let e : (contributor_id == removed) ≡ false =
              ap (λ (x : String). x == removed) (sym ((==_iff k.0 contributor_id).0 d)) ∙ b in
            rw (b, d, e) refl
        | inr d ↦ rw (b, d) ih
      ]
    ]

-- The keys after an error is managed.
manage_db_error-etags :
    (now : ℤ) (id : ℕ) (data_ : String) (c : ConnectorType) (contributor_id error : String)
    (allowed : Bool) (s : Store)
    → (manage_db_error now id data_ c contributor_id error allowed s).etags
      ≡ (if allowed then remove_key contributor_id s.etags else s.etags)
unfolding manage_db_error allow_reprocess_same_data set_rtu_status_ko assign_in make_rt_update
    db_commit save_rt_data_with_error poke_updated_at
manage_db_error-etags now id data_ c contributor_id error allowed s = ground arith

-- After an error is managed, whatever its branch, the ETag of a contributor's last call is
-- remembered exactly where it was before, except that it is forgotten for the contributor at fault
-- where its data may be processed again.
pub manage_db_error_forgets :
    (now : ℤ) (id : ℕ) (data_ : String) (c : ConnectorType) (contributor_id error : String)
    (allowed : Bool) (s : Store) (other : String)
    → is_remembered other (manage_db_error now id data_ c contributor_id error allowed s).etags
      ≡ (not (allowed && other == contributor_id) && is_remembered other s.etags)
manage_db_error_forgets now id data_ c contributor_id error allowed s other =
    let e = manage_db_error-etags now id data_ c contributor_id error allowed s in
    let r = remove_key-is_remembered contributor_id other s.etags in
    elim (Bool-cases allowed) [ inl b ↦ rw (e, b) r | inr b ↦ rw (e, b) refl ]
