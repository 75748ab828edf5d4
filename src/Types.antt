-- ===== src/Types.antt =====
-- kirin/core/types.py: modification types, trip effects and the tables between them. The database
-- columns are enumerations of these names, so a status is a constructor and not a text; the
-- defaults of the source's `dict.get` concern other texts, which no column holds.
pub mod Order
use kirin.Prelude.{
  ℕ, Bool, String, Option, none, some, if◌then◌else◌, ltb, nat_beq, Eq, ◌==◌, string_eq,
}
use kirin.Prelude.{◌≡◌, ◌↔◌, refl, ap, true, nat_beq_iff}

pub data ModificationType : Type 0 where
  add delete update unchanged deleted_for_detour added_for_detour : ModificationType

pub data TripEffect : Type 0 where
  no_service reduced_service significant_delays detour additional_service : TripEffect
  modified_service other_effect unknown_effect stop_moved undefined : TripEffect

-- `ConnectorType`
pub data ConnectorType : Type 0 where
  cots piv gtfs_rt : ConnectorType

-- The values of the protobuf enumeration `StopTimeEventStatus` that kirin writes.
pub data PbStopTimeStatus : Type 0 where
  scheduled added deleted added_detour deleted_detour : PbStopTimeStatus

unfoldable pub stop_time_status_to_protobuf : ModificationType → PbStopTimeStatus
stop_time_status_to_protobuf add = added
stop_time_status_to_protobuf delete = deleted
stop_time_status_to_protobuf update = scheduled
stop_time_status_to_protobuf unchanged = scheduled
stop_time_status_to_protobuf deleted_for_detour = deleted_detour
stop_time_status_to_protobuf added_for_detour = added_detour

unfoldable pub get_modification_type_order : ModificationType → ℕ
get_modification_type_order unchanged = 0
get_modification_type_order update = 1
get_modification_type_order add = 2
get_modification_type_order delete = 3
get_modification_type_order added_for_detour = 4
get_modification_type_order deleted_for_detour = 5

-- Python's `max` keeps the first of two values with the same key.
unfoldable pub get_higher_status : ModificationType → ModificationType → ModificationType
unfolding get_modification_type_order
get_higher_status st1 st2 =
    if ltb (get_modification_type_order st1) (get_modification_type_order st2) then st2 else st1

unfoldable pub get_effect_by_stop_time_status : ModificationType → TripEffect
get_effect_by_stop_time_status unchanged = unknown_effect
get_effect_by_stop_time_status update = significant_delays
get_effect_by_stop_time_status add = modified_service
get_effect_by_stop_time_status delete = reduced_service
get_effect_by_stop_time_status added_for_detour = detour
get_effect_by_stop_time_status deleted_for_detour = detour

unfoldable pub get_mode_filter : Option String → String
get_mode_filter none = "physical_mode.id=physical_mode:LongDistanceTrain"
get_mode_filter (some indicator) =
    if indicator == "FERRE"
    then "physical_mode.id=physical_mode:LongDistanceTrain"
    else if indicator == "ROUTIER"
    then "physical_mode.id=physical_mode:Coach"
    else "physical_mode.id=physical_mode:LongDistanceTrain"

-- The numbers of the enumeration in the source, by which two statuses are told apart.
abbrev pub status_code : ModificationType → ℕ
status_code add = 1
status_code delete = 2
status_code update = 3
status_code unchanged = 4
status_code deleted_for_detour = 5
status_code added_for_detour = 6

abbrev pub status_of : ℕ → ModificationType
status_of n =
    if nat_beq n 1
    then add
    else if nat_beq n 2
    then delete
    else if nat_beq n 3
    then update
    else if nat_beq n 4
    then unchanged
    else if nat_beq n 5
    then deleted_for_detour
    else added_for_detour

status_of-status_code : (a : ModificationType) → status_of (status_code a) ≡ a
status_of-status_code add = refl
status_of-status_code _ = refl

abbrev pub status_beq : ModificationType → ModificationType → Bool
status_beq a b = nat_beq (status_code a) (status_code b)

pub status_beq_iff : (a b : ModificationType) → (status_beq a b ≡ true) ↔ (a ≡ b)
status_beq_iff a b = (
  (λ h.
      cc (status_of-status_code a, status_of-status_code b, ap status_of ((nat_beq_iff _ _).0 h))),
  (λ h. (nat_beq_iff _ _).1 (ap status_code h)),
)

instance abbrev pub status_eq : Eq ModificationType
status_eq = record { equal = status_beq; equal_iff = status_beq_iff }
