-- ===== src/Cots/Times.antt =====
-- The stop times of the trip updates that a COTS feed gives (kirin/cots/model_maker.py:
-- `_make_trip_update`): their identifiers, delays and statuses.
use kirin.Prelude.{
  length, ℤ, String, Option, none, some, [], ◌∷◌, ◌≡◌, refl, inl, inr, arith, true, All, All-append,
  is_some, Option-cases, >>=-eq-ok, ok, ok_injective, ◌==◌,
}
use mathlib.Core.Path.{subst}
use kirin.Types.{ModificationType, update, status_eq}
use kirin.Model.{StopPoint, NavVj, StopTimeUpdate}
use kirin.Complete.Values.{get_value}
use kirin.Complete.Drafts.{
  EventUpdate, Draft, make_stop_update, order_entity, append_stop, are_times_consistent,
}
use kirin.Complete.Rounds.{Round, skipped, appended, Rounds}
use kirin.Cots.Messages.{
  StopStatus, reactivation, suppression, suppression_detournement, creation, detournement,
  other_statut_circulation, TravelerTime, StopEventKeys, Pdp,
}
use kirin.Cots.Stops.{
  project, read_updated, read_added, read_traveler_time, read_event, with_delay, added_event,
  check_stop_time_consistency, make_stop, get_stop_message,
}
use kirin.Cots.Lookup.{Context}
use kirin.Cots.Trips.{get_navitia_stop_point, external_code, make_pdp}

-- An event has a delay exactly if its status is an update.
abbrev pub Matches : ModificationType → Option ℤ → Type 0
Matches status delay = (status == update) ≡ is_some delay

abbrev pub IsRead : EventUpdate → Type 0
IsRead a = Matches a.status a.delay

with_delay-IsRead : (projected delay : Option ℤ) → IsRead (with_delay projected delay)
with_delay-IsRead projected none = refl
with_delay-IsRead projected (some d) = refl

added_event-IsRead : (status : StopStatus) (time : Option ℤ) → IsRead (added_event status time)
added_event-IsRead creation time = refl
added_event-IsRead _ time = refl

read_updated-IsRead :
    (parse : String → Option ℤ) (keys : StopEventKeys) (time : TravelerTime) (u : EventUpdate)
    → read_updated parse keys time ≡ ok u
    → IsRead u
unfolding read_updated
read_updated-IsRead parse keys time u h =
    let (p, _, h) = >>=-eq-ok (project parse keys time) _ h in
    subst IsRead (ok_injective h) (with_delay-IsRead p.0 p.1)

read_added-IsRead :
    (parse : String → Option ℤ) (keys : StopEventKeys) (time : TravelerTime) (status : StopStatus)
    (u : EventUpdate)
    → read_added parse keys time status ≡ ok u
    → IsRead u
unfolding read_added
read_added-IsRead parse keys time status u h =
    let (p, _, h) = >>=-eq-ok (project parse keys time) _ h in
    subst IsRead (ok_injective h) (added_event-IsRead status p.0)

read_traveler_time-IsRead :
    (parse : String → Option ℤ) (keys : StopEventKeys) (time : TravelerTime)
    (status : Option StopStatus) (u : EventUpdate)
    → read_traveler_time parse keys time status ≡ ok u
    → IsRead u
unfolding read_traveler_time
read_traveler_time-IsRead parse keys time none u h = read_updated-IsRead parse keys time u h
read_traveler_time-IsRead parse keys time (some reactivation) u h =
    read_updated-IsRead parse keys time u h
read_traveler_time-IsRead parse keys time (some suppression) u h =
    subst IsRead (ok_injective h) refl
read_traveler_time-IsRead parse keys time (some suppression_detournement) u h =
    subst IsRead (ok_injective h) refl
read_traveler_time-IsRead parse keys time (some creation) u h =
    read_added-IsRead parse keys time creation u h
read_traveler_time-IsRead parse keys time (some detournement) u h =
    read_added-IsRead parse keys time detournement u h
read_traveler_time-IsRead parse keys time (some (other_statut_circulation s)) u h = cc

read_event-IsRead :
    (parse : String → Option ℤ) (keys : StopEventKeys) (u : EventUpdate)
    → read_event parse keys ≡ ok u
    → IsRead u
unfolding read_event
read_event-IsRead parse keys u h = elim (Option-cases keys.horaire_voyageur) [
  | inl e ↦ ground arith
  | inr (time, e) ↦
      read_traveler_time-IsRead parse keys time time.statut_circulation_ope u (rw e at h)
]

check_consistent :
    (epoch : ℤ) (last a b : Option ℤ) (t : Unit {0})
    → check_stop_time_consistency epoch last a b ≡ ok t
    → are_times_consistent epoch last a b ≡ true
unfolding check_stop_time_consistency
check_consistent epoch last a b t h = ground arith

make_stop-Round :
    (parse : String → Option ℤ) (epoch : ℤ) (messages : String → Option String) (pdp : Pdp)
    (sp : Option StopPoint) (d d' : Draft)
    → make_stop parse epoch messages pdp sp d ≡ ok d'
    → Round IsRead epoch d d'
unfolding make_stop
make_stop-Round parse epoch messages pdp none d d' h =
    subst (Round IsRead epoch d) (ok_injective h) skipped
make_stop-Round parse epoch messages pdp (some sp) d d' h =
    let (a, ea, h) = >>=-eq-ok (read_event parse pdp.arrivee) _ h in
    let (b, eb, h) = >>=-eq-ok (read_event parse pdp.depart) _ h in
    let (t, c, h) =
      >>=-eq-ok (check_stop_time_consistency epoch d.last_departure a.projected b.projected) _ h in
    let p = read_event-IsRead parse pdp.arrivee a ea in
    let q = read_event-IsRead parse pdp.depart b eb in
    let k = check_consistent epoch d.last_departure a.projected b.projected t c in
    subst (Round IsRead epoch d) (ok_injective h)
      (appended sp (get_stop_message messages pdp) a b (p, q) k)

pub make_pdp-Round :
    (cfg : Context) (nav_vj : NavVj) → Rounds IsRead cfg.epoch (make_pdp cfg nav_vj)
unfolding make_pdp
make_pdp-Round cfg nav_vj pdp d d' h =
    let (cr, _, h) = >>=-eq-ok (get_value pdp.cr) _ h in
    let (ci, _, h) = >>=-eq-ok (get_value pdp.ci) _ h in
    let (ch, _, h) = >>=-eq-ok (get_value pdp.ch) _ h in
    make_stop-Round cfg.parse_datetime cfg.epoch cfg.message_handler pdp
      (get_navitia_stop_point cfg.navitia (external_code cr ci ch) nav_vj) d d' h

-- A stop time has the id of its stop point, and delays exactly where it is updated.
abbrev pub IsDelayMatched : StopTimeUpdate → Type 0
IsDelayMatched st =
    Matches st.arrival_status st.arrival_delay × Matches st.departure_status st.departure_delay

abbrev pub AllMatched : Draft → Type 0
AllMatched d = All IsDelayMatched d.stop_time_updates

pub Round-AllMatched :
    (epoch : ℤ) (d d' : Draft) → Round IsRead epoch d d' → AllMatched d → AllMatched d'
unfolding append_stop make_stop_update order_entity
Round-AllMatched epoch d d' skipped h = h
Round-AllMatched epoch d d' (appended sp m a b p c) h =
    All-append IsDelayMatched d.stop_time_updates
      (order_entity (length d.stop_time_updates) (make_stop_update sp m a b) ∷ []) h (p, tt)
