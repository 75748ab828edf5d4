-- ===== src/Piv/Messages.antt =====
-- What kirin/piv/model_maker.py reads of a PIV feed, once JSON is decoded. The texts that the code
-- compares with are constructors, each after its text, and any other text is kept. An object without
-- keys is taken as missing: the code does the same with both. The ranks are numbers, as documented.
use kirin.Prelude.{ℕ, ℤ, String, Option, List, Bool}
use kirin.Complete.Values.{Field}

-- The "type" of a disruption of a train.
pub data TripStatus : Type 0 where
  suppression trip_creation modification_detournement modification_desserte_supprimee : TripStatus
  modification_limitation modification_desserte_ajoutee modification_prolongation : TripStatus
  retard trip_normal undefined_status : TripStatus
  other_trip_status : String → TripStatus

-- The "statutModification" of a stop event, or the "type" of its disruption.
pub data StopStatus : Type 0 where
  retard_observe retard_projete suppression_partielle suppression_detournement : StopStatus
  creation creation_detournement normal : StopStatus
  other_stop_status : String → StopStatus

-- An element of "evenement" of a train.
pub record Disruption : Type 0 where
  pub type_ : Option TripStatus
  pub texte : Option String

-- The "evenement" of a stop event; "retard" has the key "duree", in minutes.
pub record StopDisruption : Type 0 where
  pub type_ : Option StopStatus
  pub texte : Option String
  pub retard_duree : Field (Field ℤ)

-- The "arrivee" or "depart" of a stop.
pub record PlannedEvent : Type 0 where
  pub date_heure : Option String
  pub date_heure_reelle : Option String
  pub plan_transport_source : Option String
  pub motif_modification : Option String
  pub statut_modification : Field StopStatus
  pub evenement : Field StopDisruption

-- An element of "arret"; `code` is the one under "emplacement".
pub record Arret : Type 0 where
  pub rang : ℕ
  pub arrivee : Option PlannedEvent
  pub depart : Option PlannedEvent
  pub indicateur_montee_interdite : Bool
  pub indicateur_descente_interdite : Bool
  pub code : Option String

pub record ModeTransport : Type 0 where
  pub code_mode : Option String
  pub code_sous_mode : Option String
  pub type_mode : Option String

-- `code_operateur` is under "operateur", and `arrets` under "listeArretsDesserte" and "arret".
pub record Train : Type 0 where
  pub evenement : Option (List Disruption)
  pub plan_transport_source : Option String
  pub date_circulation : Option String
  pub numero : Option String
  pub code_operateur : Option String
  pub mode_transport : Option ModeTransport
  pub arrets : Option (List Arret)

-- The elements of "objects", each by its "object".
pub record PivFeed : Type 0 where
  pub objects : Option (List (Option Train))
