-- ===== src/Model/Start.antt =====
-- When a circulation starts (kirin/core/model.py: `VehicleJourney.__init__`).
use kirin.Prelude.{
  ℕ, ◌<◌, ℤ, pos, ◌+ℤ◌, ◌≤ℤ◌, ◌<ℤ◌, ltb_ℤ, ltb_ℤ→<ℤ, ltb_ℤ→≥ℤ, int_laws, pos_part, neg_part, ◌≡◌,
  sym, ap, ◌∙◌, arith, Option, none, some, List, [], ◌∷◌, inl, inr, ◌⊎◌, Bool-cases, Option-cases,
  >>=-eq-ok, ◌>>=◌, ok, ok_injective, refl, err, object_not_found, or_else, if◌then◌else◌,
}
use kirin.Model.Time.{
  day, one_day, combine, date_of, time_of, combine_parts, combine-date_of-time_of, time_of-lt,
}
use kirin.Model.Navitia.{NavStop, NavVj}
use kirin.Model.Circulations.{
  VehicleJourney, start_after, start_within, new_vehicle_journey, start_time, first_start_time,
  start_timestamp,
}

-- A datetime has one date and one time of day.
combine-injective :
    (d d' : ℤ) (t t' : ℕ) → t < day → t' < day → combine d t ≡ combine d' t' → t ≡ t'
combine-injective d d' t t' h h' e =
    let p = ap pos_part e in
    let q = ap neg_part e in omega (arith, combine_parts d t, combine_parts d' t')

pub time_of-combine : (d : ℤ) (t : ℕ) → t < day → time_of (combine d t) ≡ t
time_of-combine d t h =
    combine-injective (date_of (combine d t)) d (time_of (combine d t)) t (time_of-lt (combine d t))
      h (combine-date_of-time_of (combine d t))

combine_day : (d : ℤ) (t : ℕ) → combine d t +ℤ one_day ≡ combine (d +ℤ pos 1) t
combine_day d t = omega (int_laws, combine_parts d t, combine_parts (d +ℤ pos 1) t)

-- The start is the only moment with this time of day in the day from `since_dt` on.
pub start_after_bounds :
    (since_dt : ℤ) (t : ℕ)
    → t < day
    → (since_dt ≤ℤ start_after since_dt t)
      × (start_after since_dt t <ℤ since_dt +ℤ one_day)
      × (time_of (start_after since_dt t) ≡ t)
unfolding start_after
start_after_bounds since_dt t h =
    let d = date_of since_dt in
    let e = combine-date_of-time_of since_dt in
    let p = ap pos_part e in
    let q = ap neg_part e in
    elim (Bool-cases (ltb_ℤ (combine d t) since_dt)) [
      | inl b ↦ rw b (
        omega
            (int_laws, combine_parts d (time_of since_dt), combine_parts d t, time_of-lt since_dt),
        omega (int_laws, ltb_ℤ→<ℤ (combine d t) since_dt b),
        rw (combine_day d t) (time_of-combine (d +ℤ pos 1) t h),
      )
      | inr b ↦ rw b (
        ltb_ℤ→≥ℤ (combine d t) since_dt b,
        omega (int_laws, combine_parts d (time_of since_dt), combine_parts d t),
        time_of-combine d t h,
      )
    ]

start_time_first :
    (vj : NavVj) (st : NavStop) (rest : List NavStop) (t : ℕ)
    → vj.stop_times ≡ some (st ∷ rest)
    → or_else st.utc_arrival_time st.utc_departure_time ≡ some t
    → start_time vj ≡ ok t
unfolding start_time first_start_time
start_time_first vj st rest t hs ht = ground arith

start_timestamp_first :
    (vj : NavVj) (st : NavStop) (rest : List NavStop) (since_dt until_dt : ℤ) (start_dt : Option ℤ)
    (t : ℕ)
    → vj.stop_times ≡ some (st ∷ rest)
    → or_else st.utc_arrival_time st.utc_departure_time ≡ some t
    → start_timestamp vj since_dt until_dt start_dt ≡ start_within since_dt until_dt t
unfolding start_timestamp
start_timestamp_first vj st rest since_dt until_dt start_dt t hs ht =
    let q = start_time_first vj st rest t hs ht in ground arith

-- For a vehicle journey whose first stop starts at time of day `t`, the circulation starts at the
-- first moment with that time that is not before `since_dt`; it is refused exactly where `until_dt`
-- is before that moment.
pub new_vehicle_journey_start :
    (vj : NavVj) (st : NavStop) (rest : List NavStop) (since_dt until_dt : ℤ) (start_dt : Option ℤ)
    (t : ℕ)
    → vj.stop_times ≡ some (st ∷ rest)
    → or_else st.utc_arrival_time st.utc_departure_time ≡ some t
    → t < day
    → (start : ℤ) × (since_dt ≤ℤ start)
      × (start <ℤ since_dt +ℤ one_day)
      × (time_of start ≡ t)
      × (new_vehicle_journey vj since_dt until_dt start_dt ≡ (
          if ltb_ℤ until_dt start
          then err object_not_found
          else ok
              (record { navitia_trip_id = vj.trip_id; start_timestamp = start; navitia_vj = vj })))
unfolding new_vehicle_journey start_within
new_vehicle_journey_start vj st rest since_dt until_dt start_dt t hs ht h =
    let (a, b, c) = start_after_bounds since_dt t h in
    (
      start_after since_dt t,
      a,
      b,
      c,
      rw (start_timestamp_first vj st rest since_dt until_dt start_dt t hs ht) (ground arith),
    )

start_after_ge : (since_dt : ℤ) (t : ℕ) → since_dt ≤ℤ start_after since_dt t
unfolding start_after
start_after_ge since_dt t =
    let d = date_of since_dt in
    let e = combine-date_of-time_of since_dt in
    let p = ap pos_part e in
    let q = ap neg_part e in
    elim (Bool-cases (ltb_ℤ (combine d t) since_dt)) [
      | inl b ↦ rw b (
          omega
            (int_laws, combine_parts d (time_of since_dt), combine_parts d t, time_of-lt since_dt))
      | inr b ↦ rw b (ltb_ℤ→≥ℤ (combine d t) since_dt b)
    ]

-- The moment is in the period.
abbrev pub IsWithin : ℤ → ℤ → ℤ → Type 0
IsWithin since_dt until_dt start = (since_dt ≤ℤ start) × (start ≤ℤ until_dt)

start_within-IsWithin :
    (since_dt until_dt : ℤ) (t : ℕ) (start : ℤ)
    → start_within since_dt until_dt t ≡ ok start
    → IsWithin since_dt until_dt start
unfolding start_within
start_within-IsWithin since_dt until_dt t start h =
    let g = start_after_ge since_dt t in
    elim (Bool-cases (ltb_ℤ until_dt (start_after since_dt t))) [
      | inl b ↦ ground arith
      | inr b ↦
          let e : start_after since_dt t ≡ start = ground arith in
          rw (sym e) (g, ltb_ℤ→≥ℤ until_dt (start_after since_dt t) b)
    ]

computed-IsWithin :
    (nav : NavVj) (since_dt until_dt : ℤ) (start : ℤ)
    → (start_time nav >>= λ t. start_within since_dt until_dt t) ≡ ok start
    → IsWithin since_dt until_dt start
computed-IsWithin nav since_dt until_dt start h =
    let (t, e, k) = >>=-eq-ok (start_time nav) _ h in
    start_within-IsWithin since_dt until_dt t start k

start_timestamp_computed :
    (nav : NavVj) (since_dt until_dt : ℤ)
    → start_timestamp nav since_dt until_dt none
      ≡ (start_time nav >>= λ t. start_within since_dt until_dt t)
unfolding start_timestamp
start_timestamp_computed nav since_dt until_dt = elim (Option-cases nav.stop_times) [
  | inl e ↦ ground arith
  | inr ([], e) ↦ ground arith
  | inr (st ∷ rest, e) ↦ ground arith
]

-- Without a start that navitia gives, the circulation starts in the period.
pub new_vehicle_journey-IsWithin :
    (nav : NavVj) (since_dt until_dt : ℤ) (vj : VehicleJourney)
    → new_vehicle_journey nav since_dt until_dt none ≡ ok vj
    → IsWithin since_dt until_dt vj.start_timestamp
unfolding new_vehicle_journey
new_vehicle_journey-IsWithin nav since_dt until_dt vj h =
    let (start, e, k) = >>=-eq-ok (start_timestamp nav since_dt until_dt none) _ h in
    let w =
      computed-IsWithin nav since_dt until_dt start
        (sym (start_timestamp_computed nav since_dt until_dt) ∙ e) in
    ground arith

start_timestamp_given :
    (nav : NavVj) (since_dt until_dt dt : ℤ)
    → (start_timestamp nav since_dt until_dt (some dt) ≡ ok dt)
      ⊎ (start_timestamp nav since_dt until_dt (some dt)
          ≡ (start_time nav >>= λ t. start_within since_dt until_dt t))
unfolding start_timestamp
start_timestamp_given nav since_dt until_dt dt = elim (Option-cases nav.stop_times) [
  | inl e ↦ inl (ground arith)
  | inr ([], e) ↦ inl (ground arith)
  | inr (st ∷ rest, e) ↦ inr (ground arith)
]

start_timestamp-IsWithin :
    (nav : NavVj) (since_dt until_dt dt : ℤ) (start : ℤ)
    → IsWithin since_dt until_dt dt
    → start_timestamp nav since_dt until_dt (some dt) ≡ ok start
    → IsWithin since_dt until_dt start
start_timestamp-IsWithin nav since_dt until_dt dt start w h =
    elim (start_timestamp_given nav since_dt until_dt dt) [
      | inl e ↦ let q : dt ≡ start = ok_injective (sym e ∙ h) in rw (← q) w
      | inr e ↦ computed-IsWithin nav since_dt until_dt start (sym e ∙ h)
    ]

-- Also with a start that is given, if it is in the period itself.
pub new_vehicle_journey_given-IsWithin :
    (nav : NavVj) (since_dt until_dt dt : ℤ) (vj : VehicleJourney)
    → IsWithin since_dt until_dt dt
    → new_vehicle_journey nav since_dt until_dt (some dt) ≡ ok vj
    → IsWithin since_dt until_dt vj.start_timestamp × (vj.navitia_vj ≡ nav)
unfolding new_vehicle_journey
new_vehicle_journey_given-IsWithin nav since_dt until_dt dt vj w h =
    let (start, e, k) = >>=-eq-ok (start_timestamp nav since_dt until_dt (some dt)) _ h in
    rw (← ok_injective k) (start_timestamp-IsWithin nav since_dt until_dt dt start w e, refl)
