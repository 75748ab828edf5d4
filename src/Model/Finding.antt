-- ===== src/Model/Finding.antt =====
-- `TripUpdate.find_stop` (kirin/core/model.py): which stop time is found.
use kirin.Prelude.{
  ℕ, String, Option, some, Bool, true, false, ◌&&◌, nat_eq, string_eq, option_eq, ==_iff, ◌≡◌, ◌⊎◌,
  inl, inr, ◌∙◌, find_first, find_first-All, All, exists, find_first-passes, find_first-eq-some,
  Bool-cases, Option-cases, arith,
}
use kirin.Model.StopUpdates.{StopTimeUpdate}
use kirin.Model.Trips.{TripUpdate, at_stop, at_order, find_stop}

-- What is found serves the stop that was asked for.
pub stop_id-find_stop :
    (tu : TripUpdate) (stop_id : Option String) (order : Option ℕ) (st : StopTimeUpdate)
    → find_stop tu stop_id order ≡ some st
    → some st.stop_id ≡ stop_id
unfolding find_stop
stop_id-find_stop tu stop_id order st h =
    elim (Option-cases
      (find_first (λ x. at_stop stop_id x && at_order order x) tu.stop_time_updates)) [
        | inl e ↦
            let f : find_first (at_stop stop_id) tu.stop_time_updates ≡ some st =
              rw (e, find_stop) at h in
            (==_iff _ _).0 (find_first-passes _ tu.stop_time_updates st f)
        | inr (x, e) ↦
            let q : some x ≡ some st = rw (e, find_stop) at h in
            let p = find_first-passes _ tu.stop_time_updates x e in (==_iff _ _).0 (ground arith)
      ]

-- Where a stop has the id, one is found; one with the order too, if there is any.
pub find_stop_found :
    (tu : TripUpdate) (stop_id : Option String) (order : Option ℕ)
    → exists (at_stop stop_id) tu.stop_time_updates ≡ true
    → (st : StopTimeUpdate) × (find_stop tu stop_id order ≡ some st)
      × (some st.stop_id ≡ stop_id)
      × ((exists (λ x. at_stop stop_id x && at_order order x) tu.stop_time_updates ≡ false)
          ⊎ (st.order ≡ order))
unfolding find_stop
find_stop_found tu stop_id order h =
    let l = tu.stop_time_updates in
    let both : StopTimeUpdate → Bool = λ x. at_stop stop_id x && at_order order x in
    elim (Bool-cases (exists both l)) [
      | inl e ↦
          let (st, q) = find_first-eq-some both l e in
          let p : both st ≡ true = find_first-passes both l st q in
          (
            st,
            rw (q, find_stop),
            (==_iff _ _).0 (ground arith),
            inr ((==_iff _ _).0 (ground arith)),
          )
      | inr e ↦
          let (st, q) = find_first-eq-some (at_stop stop_id) l h in
          elim (Option-cases (find_first both l)) [
            | inl n ↦ (st, rw (n, find_stop) q, (==_iff _ _).0 (find_first-passes _ l st q), inl e)
            | inr (x, n) ↦
                let p : both x ≡ true = find_first-passes both l x n in
                (x, rw (n, find_stop), (==_iff _ _).0 (ground arith), inl e)
          ]
    ]

-- What all stop times have, the one that is found has.
pub find_stop-All {κ} :
    (P : StopTimeUpdate → Type κ) (tu : TripUpdate) (stop_id : Option String) (order : Option ℕ)
    (st : StopTimeUpdate)
    → All P tu.stop_time_updates
    → find_stop tu stop_id order ≡ some st
    → P st
unfolding find_stop
find_stop-All P tu stop_id order st a h =
    let l = tu.stop_time_updates in
    let both : StopTimeUpdate → Bool = λ x. at_stop stop_id x && at_order order x in
    elim (Option-cases (find_first both l)) [
      | inl e ↦ find_first-All P (at_stop stop_id) l st a (rw (e, find_stop) at h)
      | inr (x, e) ↦
          let q : some x ≡ some st = rw (e, find_stop) at h in find_first-All P both l st a (e ∙ q)
    ]
