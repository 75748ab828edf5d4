-- ===== src/Cots/Stops.antt =====
-- The stops of a COTS feed (kirin/cots/model_maker.py): which are kept, and what is read of one.
use kirin.Prelude.{
  ℤ, ◌+ℤ◌, String, Option, none, some, List, [], ◌∷◌, Bool, true, false, not, ◌&&◌, ◌||◌,
  if◌then◌else◌, ◌==◌, string_eq, option_eq, find_first, sorted_by, Result, ok, err, ◌>>=◌,
  invalid_arguments, type_error,
}
use kirin.Types.{add, delete, update, deleted_for_detour, added_for_detour}
use kirin.Model.{text_truthy, StopEvent, arrival, departure, StopPoint}
use kirin.Complete.Interesting.{pick_stops}
use kirin.Complete.Values.{get_value, as_utc_naive_dt, as_duration}
use kirin.Complete.Drafts.{
  EventUpdate, no_update, Draft, make_stop_update, append_stop, are_times_consistent,
}
use kirin.Cots.Messages.{
  StopStatus, reactivation, suppression, suppression_detournement, creation, detournement,
  other_statut_circulation, TravelerTime, ProjectedTime, StopEventKeys, Pdp,
}

unfoldable pub is_station : Pdp → Bool
is_station pdp = elim pdp.type_arret [
  | none ↦ true
  | some t ↦ t == "" || (t == "CD" || (t == "CH" || (t == "FD" || t == "FH")))
]

-- The truth of a traveler time.
abbrev pub time_truthy : Option TravelerTime → Bool
time_truthy none = false
time_truthy (some time) = time.has_keys

abbrev pub has_depart : Pdp → Bool
has_depart pdp = time_truthy pdp.depart.horaire_voyageur

abbrev pub has_arrivee : Pdp → Bool
has_arrivee pdp = time_truthy pdp.arrivee.horaire_voyageur

unfoldable pub retrieve_interesting_pdp : List Pdp → List Pdp
unfolding is_station pick_stops
retrieve_interesting_pdp list_pdp =
    pick_stops has_depart has_arrivee is_station false (sorted_by (λ (p : Pdp). p.rang) list_pdp)

-- A datetime of the feed; an empty text gives none.
unfoldable pub read_datetime : (String → Option ℤ) → Option String → Result (Option ℤ)
unfolding as_utc_naive_dt
read_datetime parse none = ok none
read_datetime parse (some s) =
    if s == "" then ok none else (do dt ← as_utc_naive_dt parse s; ok (some dt))

unfoldable pub retrieve_stop_event_datetime : (String → Option ℤ) → TravelerTime → Result (Option ℤ)
unfolding read_datetime
retrieve_stop_event_datetime parse time = read_datetime parse time.date_heure

unfoldable pub retrieve_projected_time :
    Option String → Option (List ProjectedTime) → Result (Option ProjectedTime)
unfolding find_first
retrieve_projected_time (some source_ref) none = err invalid_arguments
retrieve_projected_time (some source_ref) (some l) =
    elim (find_first (λ (p : ProjectedTime). p.source == some source_ref) l) [
      | some p ↦ ok (some p)
      | none ↦ err invalid_arguments
    ]
retrieve_projected_time none none = ok none
retrieve_projected_time none (some []) = ok none
retrieve_projected_time none (some (p ∷ [])) = ok (some p)
retrieve_projected_time none (some (p ∷ _ ∷ _)) = err invalid_arguments

unfoldable pub retrieve_stop_event_delay : StopEventKeys → Result (Option ℤ)
unfolding retrieve_projected_time as_duration
retrieve_stop_event_delay keys = do
  planned ← retrieve_projected_time keys.source_horaire_projete_reference keys.liste_horaire_projete
  ok (elim planned [ none ↦ none | some p ↦ as_duration p.pronostic_iv ])

abbrev pub is_creation : Option StopStatus → Bool
is_creation (some creation) = true
is_creation _ = false

-- The statuses of the events that are there.
unfoldable pub expressed_statuses : Pdp → List (Option StopStatus)
expressed_statuses pdp =
    let departures : List (Option StopStatus) = elim pdp.depart.horaire_voyageur [
      | none ↦ []
      | some time ↦ if time.has_keys then time.statut_circulation_ope ∷ [] else []
    ] in
    elim pdp.arrivee.horaire_voyageur [
      | none ↦ departures
      | some time ↦ if time.has_keys then time.statut_circulation_ope ∷ departures else departures
    ]

abbrev pub all_creation : List (Option StopStatus) → Bool
all_creation [] = true
all_creation (s ∷ l) = is_creation s && all_creation l

unfoldable pub is_fully_added_pdp : Pdp → Bool
unfolding expressed_statuses
is_fully_added_pdp pdp = elim (expressed_statuses pdp) [
  | [] ↦ false
  | s ∷ l ↦ is_creation s && all_creation l
]

-- The `horaireVoyageurDepart` or `horaireVoyageurArrivee` that `hour_obj_name` names.
abbrev pub hour_obj : StopEvent → Pdp → Option TravelerTime
hour_obj arrival pdp = pdp.arrivee.horaire_voyageur
hour_obj departure pdp = pdp.depart.horaire_voyageur

unfoldable pub get_stop_datetime : (String → Option ℤ) → StopEvent → Pdp → Result (Option ℤ)
unfolding get_value read_datetime
get_stop_datetime parse event p = do
  time ← get_value (hour_obj event p)
  str_time ← get_value time.date_heure
  read_datetime parse (some str_time)

unfoldable pub get_first_stop_datetime :
    (String → Option ℤ) → List Pdp → StopEvent → Bool → Result (Option ℤ)
unfolding find_first get_stop_datetime is_fully_added_pdp
get_first_stop_datetime parse list_pdps event skip_fully_added_stops =
    elim (find_first (λ p. not skip_fully_added_stops || not (is_fully_added_pdp p)) list_pdps) [
      | none ↦ ok none
      | some p ↦ get_stop_datetime parse event p
    ]

-- `projected_stop_time[...] += cots_delay`, where there is a delay.
unfoldable pub add_cots_delay : Option ℤ → Option ℤ → Result (Option ℤ)
add_cots_delay base none = ok base
add_cots_delay none (some delay) = err type_error
add_cots_delay (some base) (some delay) = ok (some (base +ℤ delay))

-- What a delay makes of the event.
abbrev pub with_delay : Option ℤ → Option ℤ → EventUpdate
with_delay projected none = record no_update { projected = projected }
with_delay projected (some delay) = record no_update {
  projected = projected;
  delay = some delay;
  status = update;
}

-- "CREATION" or "DETOURNEMENT": the delay is already in the time.
abbrev pub added_event : StopStatus → Option ℤ → EventUpdate
added_event creation time = record { projected = time; time = time; delay = none; status = add }
added_event _ time = record {
  projected = time;
  time = time;
  delay = none;
  status = added_for_detour;
}

-- `projected_stop_time` of the event.
unfoldable pub project :
    (String → Option ℤ) → StopEventKeys → TravelerTime → Result (Option ℤ × Option ℤ)
unfolding retrieve_stop_event_datetime retrieve_stop_event_delay add_cots_delay
project parse keys time = do
  base ← retrieve_stop_event_datetime parse time
  delay ← retrieve_stop_event_delay keys
  projected ← add_cots_delay base delay
  ok (projected, delay)

unfoldable pub read_updated :
    (String → Option ℤ) → StopEventKeys → TravelerTime → Result EventUpdate
unfolding project
read_updated parse keys time = do
  (projected, delay) ← project parse keys time
  ok (with_delay projected delay)

unfoldable pub read_added :
    (String → Option ℤ) → StopEventKeys → TravelerTime → StopStatus → Result EventUpdate
unfolding project
read_added parse keys time status = do
  (projected, delay) ← project parse keys time
  ok (added_event status projected)

-- The branches on the status of the event.
unfoldable pub read_traveler_time :
    (String → Option ℤ) → StopEventKeys → TravelerTime → Option StopStatus → Result EventUpdate
unfolding read_updated read_added
read_traveler_time parse keys time none = read_updated parse keys time
read_traveler_time parse keys time (some reactivation) = read_updated parse keys time
read_traveler_time parse keys time (some suppression) = ok (record no_update { status = delete })
read_traveler_time parse keys time (some suppression_detournement) =
    ok (record no_update { status = deleted_for_detour })
read_traveler_time parse keys time (some creation) = read_added parse keys time creation
read_traveler_time parse keys time (some detournement) = read_added parse keys time detournement
read_traveler_time parse keys time (some (other_statut_circulation s)) = err invalid_arguments

-- One round of the loop over "Arrivee" and "Depart". An absent event changes nothing.
unfoldable pub read_event : (String → Option ℤ) → StopEventKeys → Result EventUpdate
unfolding read_traveler_time
read_event parse keys = elim keys.horaire_voyageur [
  | none ↦ ok no_update
  | some time ↦ read_traveler_time parse keys time time.statut_circulation_ope
]

-- `_check_stop_time_consistency`
unfoldable pub check_stop_time_consistency : ℤ → Option ℤ → Option ℤ → Option ℤ → Result (Unit {0})
unfolding are_times_consistent
check_stop_time_consistency epoch last_stop_time_depart arrivee depart =
    if are_times_consistent epoch last_stop_time_depart arrivee depart
    then ok tt
    else err invalid_arguments

-- The message of the departure, else the one of the arrival; `messages` is the message handler.
unfoldable pub get_stop_message : (String → Option String) → Pdp → Option String
get_stop_message messages pdp =
    let id =
      if text_truthy pdp.depart.id_motif_interne_reference
      then pdp.depart.id_motif_interne_reference
      else pdp.arrivee.id_motif_interne_reference in
    elim id [ none ↦ none | some s ↦ if s == "" then none else messages s ]

-- One round of the loop over the stops, for the stop point that was found.
unfoldable pub make_stop :
    (String → Option ℤ)
    → ℤ
    → (String → Option String)
    → Pdp
    → Option StopPoint
    → Draft
    → Result Draft
unfolding get_stop_message read_event check_stop_time_consistency append_stop make_stop_update
make_stop parse epoch messages pdp none d = ok d
make_stop parse epoch messages pdp (some nav_stop) d = do
  arr ← read_event parse pdp.arrivee
  dep ← read_event parse pdp.depart
  _ ← check_stop_time_consistency epoch d.last_departure arr.projected dep.projected
  ok (append_stop (make_stop_update nav_stop (get_stop_message messages pdp) arr dep) arr dep d)
