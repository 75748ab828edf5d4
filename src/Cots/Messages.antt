-- ===== src/Cots/Messages.antt =====
-- What kirin/cots/model_maker.py reads of a COTS feed, once JSON is decoded. The texts that the code
-- compares with are constructors, each after its text, and any other text is kept; a null and a
-- missing key are both `none`. The ranks are numbers, as documented.
use kirin.Prelude.{ℕ, ℤ, String, Option, List, Bool}

-- The "statutOperationnel" of a train; the first three are the names of `TripStatus`.
pub data TripStatus : Type 0 where
  ajoutee supprimee perturbee : TripStatus
  other_statut_operationnel : String → TripStatus

-- The "statutCirculationOPE" of a stop event.
pub data StopStatus : Type 0 where
  reactivation suppression suppression_detournement creation detournement : StopStatus
  other_statut_circulation : String → StopStatus

-- A "horaireVoyageurArrivee" or "horaireVoyageurDepart". An object without keys is falsy, but it is
-- not null: `has_keys` tells.
pub record TravelerTime : Type 0 where
  pub date_heure : Option String
  pub statut_circulation_ope : Option StopStatus
  pub has_keys : Bool

-- An element of "listeHoraireProjeteArrivee" or "listeHoraireProjeteDepart", the delay in seconds.
pub record ProjectedTime : Type 0 where
  pub source : Option String
  pub pronostic_iv : Option ℤ

-- What a stop has for its arrival, or for its departure: the keys with "Arrivee" or "Depart".
pub record StopEventKeys : Type 0 where
  pub horaire_voyageur : Option TravelerTime
  pub source_horaire_projete_reference : Option String
  pub liste_horaire_projete : Option (List ProjectedTime)
  pub id_motif_interne_reference : Option String

-- A "Point de Parcours".
pub record Pdp : Type 0 where
  pub rang : ℕ
  pub type_arret : Option String
  pub cr : Option String
  pub ci : Option String
  pub ch : Option String
  pub arrivee : StopEventKeys
  pub depart : StopEventKeys

-- The "nouvelleVersion".
pub record Version : Type 0 where
  pub numero_course : Option String
  pub statut_operationnel : Option TripStatus
  pub id_motif_interne_reference : Option String
  pub code_compagnie_transporteur : Option String
  pub indicateur_fer : Option String
  pub liste_point_de_parcours : Option (List Pdp)

pub record CotsFeed : Type 0 where
  pub nouvelle_version : Option Version
