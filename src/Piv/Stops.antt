-- ===== src/Piv/Stops.antt =====
-- The stops of a PIV feed (kirin/piv/model_maker.py): which are kept, and what is read of one.
use kirin.Prelude.{
  ℤ, pos, ◌*ℤ◌, String, Option, none, some, List, Bool, true, false, not, ◌&&◌, ◌||◌, is_some,
  if◌then◌else◌, ◌==◌, string_eq, find_first, sorted_by, Result, ok, err, ◌>>=◌, invalid_arguments,
  attribute_error, type_error,
}
use kirin.Types.{
  ModificationType, add, delete, update, unchanged, deleted_for_detour, added_for_detour,
}
use kirin.Model.{text_truthy, StopPoint}
use kirin.Complete.Interesting.{pick_stops}
use kirin.Complete.Values.{missing, null, value, get_value, as_utc_naive_dt, as_duration}
use kirin.Complete.Drafts.{
  EventUpdate, no_update, Draft, make_stop_update, append_stop, are_times_consistent,
}
use kirin.Piv.Messages.{
  StopStatus, retard_observe, retard_projete, suppression_partielle, suppression_detournement,
  creation, creation_detournement, normal, other_stop_status, PlannedEvent, Arret,
}

unfoldable pub has_departure : Arret → Bool
has_departure stop = is_some stop.depart && not stop.indicateur_montee_interdite

unfoldable pub has_arrival : Arret → Bool
has_arrival stop = is_some stop.arrivee && not stop.indicateur_descente_interdite

-- All stops are stations.
abbrev pub is_stop : Arret → Bool
is_stop stop = true

unfoldable pub retrieve_interesting_stops : List Arret → List Arret
unfolding has_departure has_arrival pick_stops
retrieve_interesting_stops list_ad =
    pick_stops has_departure has_arrival is_stop false (sorted_by (λ (a : Arret). a.rang) list_ad)

-- The event is absent, or planned by one of the two sources of added events.
unfoldable pub is_added_event : Option PlannedEvent → Bool
is_added_event none = true
is_added_event (some event) = elim event.plan_transport_source [
  | none ↦ false
  | some source ↦ source == "OPE" || source == "PTP"
]

unfoldable pub is_fully_added_stop : Arret → Bool
unfolding is_added_event
is_fully_added_stop ad = is_added_event ad.arrivee && is_added_event ad.depart

-- The planned time of the stop's departure; an empty text gives no datetime.
unfoldable pub get_base_datetime : (String → Option ℤ) → Arret → Result (Option ℤ)
unfolding get_value as_utc_naive_dt
get_base_datetime parse s = do
  event ← get_value s.depart
  str_time ← get_value event.date_heure
  (if str_time == "" then ok none else (do dt ← as_utc_naive_dt parse str_time; ok (some dt)))

-- `_get_first_stop_base_datetime(list_ads, "depart", skip_fully_added_stops=True)`
unfoldable pub get_first_stop_base_datetime : (String → Option ℤ) → List Arret → Result (Option ℤ)
unfolding find_first get_base_datetime is_fully_added_stop
get_first_stop_base_datetime parse list_ads =
    elim (find_first (λ s. not (is_fully_added_stop s)) list_ads) [
      | none ↦ ok none
      | some s ↦ get_base_datetime parse s
    ]

-- `if not motif and event: motif = read(event)`
unfoldable pub or_read :
    Option PlannedEvent
    → (PlannedEvent → Result (Option String))
    → Option String
    → Result (Option String)
or_read none read motif = ok motif
or_read (some event) read motif = if text_truthy motif then ok motif else read event

-- `event.get("evenement", {}).get("texte", None)`
unfoldable pub event_texte : PlannedEvent → Result (Option String)
event_texte event = elim event.evenement [
  | missing ↦ ok none
  | null ↦ err attribute_error
  | value disruption ↦ ok disruption.texte
]

abbrev pub event_motif : PlannedEvent → Result (Option String)
event_motif event = ok event.motif_modification

unfoldable pub get_message : Arret → Result (Option String)
unfolding or_read event_texte
get_message arret = do
  motif ← or_read arret.depart event_motif none
  motif ← or_read arret.arrivee event_motif motif
  motif ← or_read arret.depart event_texte motif
  or_read arret.arrivee event_texte motif

-- `event.get("statutModification", piv_disruption.get("type", None))`
unfoldable pub get_event_status : PlannedEvent → Result (Option StopStatus)
get_event_status event = elim event.evenement [
  | null ↦ err attribute_error
  | missing ↦ ok (elim event.statut_modification [ value status ↦ some status | _ ↦ none ])
  | value disruption ↦ ok (elim event.statut_modification [
    | missing ↦ disruption.type_
    | null ↦ none
    | value status ↦ some status
  ])
]

-- The status of the stop event; a text that is not managed is refused.
unfoldable pub modification_of : Option StopStatus → Result ModificationType
modification_of none = ok unchanged
modification_of (some retard_observe) = ok update
modification_of (some retard_projete) = ok update
modification_of (some suppression_partielle) = ok delete
modification_of (some suppression_detournement) = ok deleted_for_detour
modification_of (some creation) = ok add
modification_of (some creation_detournement) = ok added_for_detour
modification_of (some normal) = ok unchanged
modification_of (some (other_stop_status s)) =
    if s == "" then ok unchanged else err invalid_arguments

-- `get_value(event, "dateHeureReelle", nullable=True)` as a datetime.
unfoldable pub get_real_datetime : (String → Option ℤ) → Option String → Result (Option ℤ)
unfolding as_utc_naive_dt
get_real_datetime parse none = ok none
get_real_datetime parse (some s) =
    if s == "" then ok none else (do dt ← as_utc_naive_dt parse s; ok (some dt))

-- `as_duration(piv_disruption.get("retard", {}).get("duree", 0) * 60)`, if there is a disruption.
unfoldable pub get_event_delay : PlannedEvent → Result (Option ℤ)
unfolding as_duration
get_event_delay event = elim event.evenement [
  | missing ↦ ok none
  | null ↦ err attribute_error
  | value disruption ↦ elim disruption.retard_duree [
    | missing ↦ ok (as_duration (some (pos 0)))
    | null ↦ err attribute_error
    | value missing ↦ ok (as_duration (some (pos 0)))
    | value null ↦ err type_error
    | value (value minutes) ↦ ok (as_duration (some (minutes *ℤ 60)))
  ]
]

-- One round of the loop over "arrivee" and "depart". An absent event changes nothing.
unfoldable pub read_event : (String → Option ℤ) → Option PlannedEvent → Result EventUpdate
unfolding get_event_status modification_of get_real_datetime get_event_delay
read_event parse none = ok no_update
read_event parse (some event) = do
  piv_event_status ← get_event_status event
  status ← modification_of piv_event_status
  event_datetime ← get_real_datetime parse event.date_heure_reelle
  delay ← get_event_delay event
  ok (record { projected = event_datetime; time = event_datetime; delay = delay; status = status })

-- `_check_stop_time_consistency`
unfoldable pub check_stop_time_consistency : ℤ → Option ℤ → Option ℤ → Option ℤ → Result (Unit {0})
unfolding are_times_consistent
check_stop_time_consistency epoch previous_rt_stop_time_dep arrivee depart =
    if are_times_consistent epoch previous_rt_stop_time_dep arrivee depart
    then ok tt
    else err invalid_arguments

-- One round of the loop over the stops, for the stop point that was found.
unfoldable pub make_stop : (String → Option ℤ) → ℤ → Arret → Option StopPoint → Draft → Result Draft
unfolding get_message read_event check_stop_time_consistency append_stop make_stop_update
make_stop parse epoch arret none d = ok d
make_stop parse epoch arret (some nav_stop) d = do
  message ← get_message arret
  arrival ← read_event parse arret.arrivee
  departure ← read_event parse arret.depart
  _ ← check_stop_time_consistency epoch d.last_departure arrival.projected departure.projected
  ok (append_stop (make_stop_update nav_stop message arrival departure) arrival departure d)
