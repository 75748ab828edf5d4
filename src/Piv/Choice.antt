-- ===== src/Piv/Choice.antt =====
-- Which disruption of a PIV train is chosen (kirin/piv/model_maker.py: `build_trip_updates`).
use kirin.Prelude.{
  ℕ, ◌≤◌, String, Option, none, some, List, [], ◌∷◌, ltb, if◌then◌else◌, true, ◌≡◌, refl, ◌∙◌, ◌⊎◌,
  arith, All, All-map, Bool-cases, inl, inr, Result, ok, err, unsupported_value,
}
use mathlib.Core.Path.{subst}
use kirin.Piv.Messages.{TripStatus, Disruption}
use kirin.Piv.Disruptions.{
  maxint, trip_effect_order, trip_piv_status_to_effect, effect_or_undefined,
  get_trip_effect_order_from_piv_status, is_managed, Chosen, no_disruption, prefer,
  choose_disruption, require_effect, select_disruption,
}

-- The order of a disruption, which is the last one where it is not managed.
abbrev pub status_rank : Option TripStatus → ℕ
status_rank none = maxint
status_rank (some status) =
    if is_managed status then get_trip_effect_order_from_piv_status status else maxint

abbrev pub rank : Disruption → ℕ
rank d = status_rank d.type_

abbrev pub chosen_rank : Chosen → ℕ
chosen_rank c = get_trip_effect_order_from_piv_status c.status

-- The disruption of the feed that was chosen, which is a managed one.
abbrev pub IsChosen : Chosen → Disruption → Type 0
IsChosen c d = (d.type_ ≡ some c.status) × (d.texte ≡ c.texte) × (is_managed c.status ≡ true)

abbrev pub Some : (Disruption → Type 0) → List Disruption → Type 0
Some P [] = ⊥
Some P (d ∷ ds) = P d ⊎ Some P ds

order_le : (status : TripStatus) → get_trip_effect_order_from_piv_status status ≤ maxint
unfolding get_trip_effect_order_from_piv_status trip_effect_order
order_le status = ground arith

-- A managed status has an effect that is known and comes before the others.
managed_order :
    (status : TripStatus)
    → is_managed status ≡ true
    → get_trip_effect_order_from_piv_status status ≤ 6
unfolding get_trip_effect_order_from_piv_status trip_effect_order effect_or_undefined
    trip_piv_status_to_effect is_managed
managed_order status h = ground arith

prefer_le :
    (t : Option TripStatus) (x : Option String) (h : Chosen)
    → (chosen_rank (prefer t x h) ≤ chosen_rank h) × (chosen_rank (prefer t x h) ≤ status_rank t)
unfolding prefer
prefer_le none x h = (omega arith, order_le h.status)
prefer_le (some t) x h = ground (arith, order_le h.status)

choose_le :
    (ds : List Disruption) (h : Chosen)
    → (chosen_rank (choose_disruption ds h) ≤ chosen_rank h)
      × All (λ d. chosen_rank (choose_disruption ds h) ≤ rank d) ds
unfolding choose_disruption
choose_le [] h = (omega arith, tt)
choose_le (d ∷ ds) h =
    let (a, b) = prefer_le d.type_ d.texte h in
    let (c, r) = choose_le ds (prefer d.type_ d.texte h) in (omega arith, (omega arith, r))

prefer_from :
    (t : Option TripStatus) (x : Option String) (h : Chosen)
    → (prefer t x h ≡ h)
      ⊎ ((t ≡ some (prefer t x h).status)
          × (x ≡ (prefer t x h).texte)
          × (is_managed (prefer t x h).status ≡ true))
unfolding prefer
prefer_from none x h = inl refl
prefer_from (some t) x h = elim (Bool-cases (is_managed t)) [
  | inr e ↦ inl (rw e refl)
  | inl e ↦ elim (Bool-cases (ltb (get_trip_effect_order_from_piv_status t) (chosen_rank h))) [
    | inr q ↦ inl (rw (e, q) refl)
    | inl q ↦ inr (rw (e, q) (refl, refl, e))
  ]
]

choose_from :
    (ds : List Disruption) (h : Chosen)
    → (choose_disruption ds h ≡ h) ⊎ Some (IsChosen (choose_disruption ds h)) ds
unfolding choose_disruption
choose_from [] h = inl refl
choose_from (d ∷ ds) h = elim (choose_from ds (prefer d.type_ d.texte h)) [
  | inr q ↦ inr (inr q)
  | inl e ↦ elim (prefer_from d.type_ d.texte h) [
    | inl f ↦ inl (e ∙ f)
    | inr q ↦ inr (inl (rw e q))
  ]
]

-- What is selected of a list of disruptions: one of its managed ones, with no managed one before it
-- in the order of effects; it is refused where none is managed.
abbrev pub Selects : List Disruption → Result Chosen → Type 0
Selects ds (ok c) = Some (IsChosen c) ds × All (λ d. chosen_rank c ≤ rank d) ds
Selects ds (err e) = (e ≡ unsupported_value) × All (λ d. rank d ≡ maxint) ds

require_effect_managed : (c : Chosen) → is_managed c.status ≡ true → require_effect c ≡ ok c
unfolding require_effect effect_or_undefined trip_piv_status_to_effect is_managed
require_effect_managed c h = ground arith

Some-is_managed :
    (c : Chosen) (ds : List Disruption) → Some (IsChosen c) ds → is_managed c.status ≡ true
Some-is_managed c [] h = elim h [ ]
Some-is_managed c (d ∷ ds) (inl h) = h.2
Some-is_managed c (d ∷ ds) (inr h) = Some-is_managed c ds h

rank_le : (t : Option TripStatus) → status_rank t ≤ maxint
rank_le none = omega arith
rank_le (some t) = ground (arith, order_le t)

refused :
    (ds : List Disruption) (c : Chosen)
    → c ≡ no_disruption
    → All (λ d. chosen_rank c ≤ rank d) ds
    → Selects ds (require_effect c)
unfolding require_effect effect_or_undefined trip_piv_status_to_effect trip_effect_order
    get_trip_effect_order_from_piv_status
refused ds c e h = rw e (
  refl,
  All-map (λ d. λ (q : maxint ≤ rank d). let r = rank_le d.type_ in omega arith) ds
      (subst (λ x. All (λ d. chosen_rank x ≤ rank d) ds) e h),
)

-- Among the disruptions of a train one that is managed is selected, with no managed one before it in
-- the order of effects; the feed is refused as unsupported exactly where none of them is managed.
pub select_disruption_highest :
    (d : Disruption) (ds : List Disruption) (source : Option String)
    → Selects (d ∷ ds) (select_disruption (some (d ∷ ds)) source)
unfolding select_disruption
select_disruption_highest d ds source =
    let c = choose_disruption (d ∷ ds) no_disruption in
    let h = (choose_le (d ∷ ds) no_disruption).1 in
    elim (choose_from (d ∷ ds) no_disruption) [
      | inl e ↦ refused (d ∷ ds) c e h
      | inr q ↦ rw (require_effect_managed c (Some-is_managed c (d ∷ ds) q)) (q, h)
    ]
