-- ===== src/Piv/Reading.antt =====
-- What is read of a PIV train (kirin/piv/model_maker.py: `build_trip_updates`, `_get_navitia_vj`).
use kirin.Prelude.{
  ◌≤◌, String, some, List, length, ltb, ◌≡◌, sym, ap, arith, ok, >>=-eq-ok, ok_injective,
  Bool-cases, inl, inr,
}
use kirin.Complete.Values.{get_value, get_value-some}
use kirin.Piv.Messages.{Train, Arret}
use kirin.Piv.Disruptions.{select_disruption}
use kirin.Piv.Stops.{retrieve_interesting_stops}
use kirin.Piv.Trips.{ReadTrain}
use kirin.Piv.Building.{require_stops, read_train}

-- What an accepted train has to do with what was read.
pub record ReadFrom (json_train : Train) (train : ReadTrain) : Type 0 where
  pub list_ads : List Arret
  pub has_stops : json_train.arrets ≡ some list_ads
  pub kept : train.arrets ≡ retrieve_interesting_stops list_ads
  pub enough : 2 ≤ length train.arrets
  pub selected :
      select_disruption json_train.evenement json_train.plan_transport_source ≡ ok train.evenement
  pub numbered : json_train.numero ≡ some train.numero

require_stops-enough :
    (l ads : List Arret) → require_stops l ≡ ok ads → (l ≡ ads) × (2 ≤ length ads)
unfolding require_stops
require_stops-enough l ads h = elim (Bool-cases (ltb (length l) 2)) [
  | inl e ↦ ground arith
  | inr e ↦ let q : l ≡ ads = ok_injective (rw e at h) in (q, rw (← q) (ground arith))
]

pub read_train-ReadFrom :
    (json_train : Train) (piv_key : String) (train : ReadTrain)
    → read_train json_train ≡ ok (piv_key, train)
    → ReadFrom json_train train
unfolding read_train
read_train-ReadFrom t piv_key train h =
    let (e, q, h) = >>=-eq-ok (select_disruption t.evenement t.plan_transport_source) _ h in
    let (_, _, h) = >>=-eq-ok (get_value t.date_circulation) _ h in
    let (n, qn, h) = >>=-eq-ok (get_value t.numero) _ h in
    let (_, _, h) = >>=-eq-ok (get_value t.code_operateur) _ h in
    let (mode, _, h) = >>=-eq-ok (get_value t.mode_transport) _ h in
    let (_, _, h) = >>=-eq-ok (get_value mode.code_mode) _ h in
    let (_, _, h) = >>=-eq-ok (get_value mode.code_sous_mode) _ h in
    let (_, _, h) = >>=-eq-ok (get_value mode.type_mode) _ h in
    let (l, ql, h) = >>=-eq-ok (get_value t.arrets) _ h in
    let (ads, qa, h) = >>=-eq-ok (require_stops (retrieve_interesting_stops l)) _ h in
    let r : _ ≡ train = ap (λ (p : String × ReadTrain). p.1) (ok_injective h) in
    let (k, enough) = require_stops-enough (retrieve_interesting_stops l) ads qa in
    rw (← r) (record {
      list_ads = l;
      has_stops = get_value-some t.arrets l ql;
      kept = sym k;
      enough = enough;
      selected = q;
      numbered = get_value-some t.numero n qn;
    })
