-- ===== src/Merge/Validity.antt =====
-- Which changes of stop events are accepted (kirin/core/merge_utils.py: `is_new_stop_event_valid`).
use kirin.Prelude.{
  ℕ, String, Option, none, some, Bool, true, false, not, ◌==◌, ==_iff, ◌≡◌, ◌↔◌, ◌⊎◌, inl, inr,
  refl, sym, ◌∙◌, arith, ◌||◌, ◌&&◌, if◌then◌else◌,
}
use kirin.Types.{status_eq}
use kirin.Model.{
  arrival, departure, StopEvent, NavStop, StopTimeUpdate, TripUpdate, get_stop_event_status,
  is_stop_event_deleted, is_stop_event_added,
}
use kirin.Merge.Events.{
  find_in, same_status, served_in_base, is_stop_event_served, is_new_stop_event_valid,
}
use kirin.Merge.Stops.{is_extra_stop}

accepted : Bool → Bool → Bool → Bool
accepted same added served =
    if same
    then true
    else if added && served
    then false
    else if not added && not served
    then false
    else true

accepted_iff :
    (same added served : Bool)
    → (accepted same added served ≡ true) ↔ ((same ≡ true) ⊎ (added ≡ not served))
unfolding accepted
accepted_iff true added served = ((λ h. inl refl), (λ h. refl))
accepted_iff false true true = ((λ h. cc), (λ h. ground arith))
accepted_iff false true false = ((λ h. inr refl), (λ h. refl))
accepted_iff false false true = ((λ h. inr refl), (λ h. refl))
accepted_iff false false false = ((λ h. cc), (λ h. ground arith))

valid-accepted :
    (event : StopEvent) (id : Option String) (order : ℕ) (st : Option NavStop)
    (db_tu : Option TripUpdate) (new_stu : StopTimeUpdate)
    → is_new_stop_event_valid event id order st db_tu (some new_stu)
      ≡ accepted
          (same_status event (find_in db_tu id order) new_stu)
          (is_stop_event_added event new_stu)
          (is_stop_event_served event id order st db_tu none)
unfolding accepted is_new_stop_event_valid
valid-accepted event id order st db_tu new_stu = refl

served_recorded :
    (event : StopEvent) (id : Option String) (order : ℕ) (st : Option NavStop)
    (db_tu : Option TripUpdate) (db_stu : StopTimeUpdate)
    → find_in db_tu id order ≡ some db_stu
    → is_stop_event_served event id order st db_tu none ≡ not (is_stop_event_deleted event db_stu)
unfolding is_stop_event_served
served_recorded event id order st db_tu db_stu e = ground arith

flip : (a d s : Bool) → s ≡ not d → (a ≡ not s) ↔ (a ≡ d)
flip a true s h = ((λ p. ground arith), (λ p. ground arith))
flip a false s h = ((λ p. ground arith), (λ p. ground arith))

-- A new status for a recorded stop event is accepted exactly where it repeats the recorded status,
-- adds an event that is recorded as deleted, or changes without adding one that is not.
pub is_new_stop_event_valid_recorded :
    (event : StopEvent) (id : Option String) (order : ℕ) (st : Option NavStop)
    (db_tu : Option TripUpdate) (db_stu new_stu : StopTimeUpdate)
    → find_in db_tu id order ≡ some db_stu
    → (is_new_stop_event_valid event id order st db_tu (some new_stu) ≡ true) ↔ (
        (get_stop_event_status event db_stu ≡ get_stop_event_status event new_stu)
        ⊎ (is_stop_event_added event new_stu ≡ is_stop_event_deleted event db_stu))
is_new_stop_event_valid_recorded event id order st db_tu db_stu new_stu e =
    let v = valid-accepted event id order st db_tu new_stu in
    let a =
      accepted_iff (same_status event (find_in db_tu id order) new_stu)
        (is_stop_event_added event new_stu) (is_stop_event_served event id order st db_tu none) in
    let s : same_status event (find_in db_tu id order) new_stu
        ≡ (get_stop_event_status event db_stu == get_stop_event_status event new_stu) =
      rw e (unfold same_status in refl) in
    let w : is_stop_event_served event id order st db_tu none
        ≡ not (is_stop_event_deleted event db_stu) =
      served_recorded event id order st db_tu db_stu e in
    let f = flip (is_stop_event_added event new_stu) (is_stop_event_deleted event db_stu) _ w in
    let iff = ==_iff (get_stop_event_status event db_stu) (get_stop_event_status event new_stu) in
    (
      λ h. elim (a.0 (sym v ∙ h)) [ inl p ↦ inl (iff.0 (sym s ∙ p)) | inr p ↦ inr (f.0 p) ],
      λ h. v ∙ a.1 (elim h [ inl p ↦ inl (s ∙ iff.1 p) | inr p ↦ inr (f.1 p) ]),
    )

-- A stop that is neither in the base schedule nor recorded is gone through exactly where its
-- arrival or its departure is an addition.
pub is_extra_stop_unrecorded :
    (order : ℕ) (new_stu : StopTimeUpdate) (db_tu : Option TripUpdate)
    → find_in db_tu (some new_stu.stop_id) order ≡ none
    → is_extra_stop order new_stu db_tu
      ≡ (is_stop_event_added arrival new_stu || is_stop_event_added departure new_stu)
unfolding is_extra_stop is_new_stop_event_valid served_in_base
is_extra_stop_unrecorded order new_stu db_tu e = ground arith
