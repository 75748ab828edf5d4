-- ===== src/RtUpdates/Latest.antt =====
-- Which row is the last (kirin/core/model.py: `RealTimeUpdate.get_last_rtu`) after the rows have
-- been changed in place.
use kirin.Prelude.{
  ℕ, ℤ, ltb_ℤ, String, Option, none, some, List, [], ◌∷◌, map, ◌&&◌, ◌==◌, string_eq, option_eq,
  nat_eq, ◌≡◌, refl, ap, arith, Bool-cases, inl, inr,
}
use mathlib.Core.Option.{map as option_map}
use kirin.Types.{ConnectorType}
use kirin.RtUpdates.{RealTimeUpdate, RtStatus, connector_beq, later, last_of, flush, assign}

-- The change leaves what the query reads.
abbrev pub Keeps : (RealTimeUpdate → RealTimeUpdate) → Type 0
Keeps f =
    (r : RealTimeUpdate)
    → ((f r).connector ≡ r.connector)
      × ((f r).contributor_id ≡ r.contributor_id)
      × ((f r).created_at ≡ r.created_at)

pub flush-Keeps : (now : ℤ) → Keeps (flush now)
unfolding flush
flush-Keeps now r = ground arith

pub assign-Keeps :
    (id : ℕ) (status : RtStatus) (error : Option String) → Keeps (assign id status error)
unfolding assign
assign-Keeps id status error r = ground arith

later_map :
    (f : RealTimeUpdate → RealTimeUpdate)
    → Keeps f
    → (a : RealTimeUpdate) (b : Option RealTimeUpdate)
    → later (f a) (option_map f b) ≡ f (later a b)
unfolding later
later_map f k a none = refl
later_map f k a (some b) =
    let (ca, ia, ta) = k a in
    let (cb, ib, tb) = k b in
    let same : ltb_ℤ (f a).created_at (f b).created_at ≡ ltb_ℤ a.created_at b.created_at =
      rw (ta, tb) refl in
    elim (Bool-cases (ltb_ℤ a.created_at b.created_at)) [
      | inl e ↦ rw (same, e) refl
      | inr e ↦ rw (same, e) refl
    ]

pub last_of-map :
    (f : RealTimeUpdate → RealTimeUpdate)
    → Keeps f
    → (c : ConnectorType) (id : String) (rows : List RealTimeUpdate)
    → last_of c id (map f rows) ≡ option_map f (last_of c id rows)
unfolding last_of
last_of-map f k c id [] = refl
last_of-map f k c id (r ∷ rest) =
    let ih = last_of-map f k c id rest in
    let (cr, ir, tr) = k r in
    let q = later_map f k r (last_of c id rest) in
    let same : (connector_beq (f r).connector c && (f r).contributor_id == id)
        ≡ (connector_beq r.connector c && r.contributor_id == id) =
      rw (cr, ir) refl in
    elim (Bool-cases (connector_beq r.connector c && r.contributor_id == id)) [
      | inl b ↦ rw (same, b, ih) (ap some q)
      | inr b ↦ rw (same, b, ih) refl
    ]
