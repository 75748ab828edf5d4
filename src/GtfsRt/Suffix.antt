-- ===== src/GtfsRt/Suffix.antt =====
-- Which trips of a GTFS-RT feed are accepted (kirin/gtfs_rt/model_maker.py: `_make_trip_updates`).
use kirin.Prelude.{
  ℕ, ◌-◌, String, none, some, List, [], ◌∷◌, ◌++◌, reverse, true, ==_iff, option_eq, string_eq,
  length, ◌≡◌, ◌↔◌, refl, sym, ap, ◌∙◌, arith, Option-cases, inl, inr, is_some, All, All-append,
}
use mathlib.Core.List.{reverse-cons, reverse-append, reverse-reverse}
use kirin.Types.{unchanged}
use kirin.Model.{StopPoint, NavStop, get_stop_times, VehicleJourney}
use kirin.GtfsRt.{
  FeedStop, FeedTrip, get_stop_code, match_stop, Matched, add_stop, match_stops, make_trip_update,
}

abbrev pub HasStopPoint : NavStop → Type 0
HasStopPoint v = is_some v.stop_point ≡ true

-- A stop of the feed names the source code of a stop of the base schedule.
pub record Codes (v : NavStop) (t : FeedStop) : Type 0 where
  pub sp : StopPoint
  pub at_stop : v.stop_point ≡ some sp
  pub code : get_stop_code sp ≡ some t.stop_id

abbrev pub AllCode : List NavStop → List FeedStop → Type 0
AllCode [] [] = Unit
AllCode [] (t ∷ ts) = ⊥
AllCode (v ∷ vs) [] = ⊥
AllCode (v ∷ vs) (t ∷ ts) = Codes v t × AllCode vs ts

-- The feed's stops are the last stops of the base schedule, and the others have a stop point.
pub record IsEnding (vs : List NavStop) (ts : List FeedStop) : Type 0 where
  pub before : List NavStop
  pub ending : List NavStop
  pub split : vs ≡ before ++ ending
  pub codes : AllCode ending ts
  pub stop_points : All HasStopPoint before

-- The same on the reversed lists.
abbrev Starts : List NavStop → List FeedStop → Type 0
Starts [] [] = Unit
Starts [] (t ∷ ts) = ⊥
Starts (v ∷ vs) [] = HasStopPoint v × Starts vs []
Starts (v ∷ vs) (t ∷ ts) = Codes v t × Starts vs ts

match_stop-none_iff :
    (v : NavStop) (order : ℕ) → (is_some (match_stop v none order) ≡ true) ↔ HasStopPoint v
unfolding match_stop
match_stop-none_iff v order = (λ h. ground arith, λ h. ground arith)

match_stop-some_iff :
    (v : NavStop) (t : FeedStop) (order : ℕ)
    → (is_some (match_stop v (some t) order) ≡ true) ↔ Codes v t
unfolding match_stop
match_stop-some_iff v t order = (
  λ h. elim (Option-cases v.stop_point) [
    | inl e ↦ ground arith
    | inr (sp, e) ↦ record {
      sp = sp;
      at_stop = e;
      code = (==_iff (get_stop_code sp) (some t.stop_id)).0 (ground arith);
    }
  ],
  λ c.
      let q = (==_iff (get_stop_code c.sp) (some t.stop_id)).1 c.code in
      let e = c.at_stop in ground arith,
)

match_stops_iff :
    (vs : List NavStop) (ts : List FeedStop) (order : ℕ) (m : Matched)
    → (is_some (match_stops vs ts order m) ≡ true) ↔ Starts vs ts
unfolding match_stops
match_stops_iff [] [] order m = (λ h. tt, λ h. refl)
match_stops_iff [] (t ∷ ts) order m = (λ h. cc, λ h. elim h [ ])
match_stops_iff (v ∷ vs) [] order m =
    let one = match_stop-none_iff v order in
    elim (Option-cases (match_stop v none order)) [
      | inl e ↦ (λ h. ground arith, λ h. let q = one.1 h.0 in ground arith)
      | inr (st, e) ↦
          let ih = match_stops_iff vs [] (order - 1) (add_stop st m) in
          (λ h. (one.0 (rw e), ih.0 (ground arith)), λ h. let q = ih.1 h.1 in ground arith)
    ]
match_stops_iff (v ∷ vs) (t ∷ ts) order m =
    let one = match_stop-some_iff v t order in
    elim (Option-cases (match_stop v (some t) order)) [
      | inl e ↦ (λ h. ground arith, λ h. let q = one.1 h.0 in ground arith)
      | inr (st, e) ↦
          let ih = match_stops_iff vs ts (order - 1) (add_stop st m) in
          (λ h. (one.0 (rw e), ih.0 (ground arith)), λ h. let q = ih.1 h.1 in ground arith)
    ]

Starts-nil : (vs : List NavStop) → Starts vs [] → All HasStopPoint vs
Starts-nil [] h = tt
Starts-nil (v ∷ vs) h = (h.0, Starts-nil vs h.1)

Starts-of_nil : (vs : List NavStop) → All HasStopPoint vs → Starts vs []
Starts-of_nil [] h = tt
Starts-of_nil (v ∷ vs) h = (h.0, Starts-of_nil vs h.1)

Starts-split :
    (vs : List NavStop) (ts : List FeedStop)
    → Starts vs ts
    → (a : List NavStop) × (b : List NavStop) × (vs ≡ a ++ b) × AllCode a ts × All HasStopPoint b
Starts-split vs [] h = ([], vs, refl, tt, Starts-nil vs h)
Starts-split [] (t ∷ ts) h = elim h [ ]
Starts-split (v ∷ vs) (t ∷ ts) h =
    let (a, b, e, c, p) = Starts-split vs ts h.1 in (v ∷ a, b, rw e, (h.0, c), p)

Starts-append :
    (a b : List NavStop) (ts : List FeedStop)
    → AllCode a ts
    → All HasStopPoint b
    → Starts (a ++ b) ts
Starts-append [] b [] c p = Starts-of_nil b p
Starts-append [] b (t ∷ ts) c p = elim c [ ]
Starts-append (v ∷ a) b [] c p = elim c [ ]
Starts-append (v ∷ a) b (t ∷ ts) c p = (c.0, Starts-append a b ts c.1 p)

AllCode-append :
    (a b : List NavStop) (s t : List FeedStop)
    → AllCode a s
    → AllCode b t
    → AllCode (a ++ b) (s ++ t)
AllCode-append [] b [] t h k = k
AllCode-append [] b (x ∷ s) t h k = elim h [ ]
AllCode-append (v ∷ a) b [] t h k = elim h [ ]
AllCode-append (v ∷ a) b (x ∷ s) t h k = (h.0, AllCode-append a b s t h.1 k)

AllCode-reverse :
    (a : List NavStop) (s : List FeedStop) → AllCode a s → AllCode (reverse a) (reverse s)
AllCode-reverse [] [] h = tt
AllCode-reverse [] (x ∷ s) h = elim h [ ]
AllCode-reverse (v ∷ a) [] h = elim h [ ]
AllCode-reverse (v ∷ a) (x ∷ s) h =
    rw (reverse-cons v a, reverse-cons x s)
      (AllCode-append (reverse a) (v ∷ []) (reverse s) (x ∷ []) (AllCode-reverse a s h.1) (h.0, tt))

All-reverse : (l : List NavStop) → All HasStopPoint l → All HasStopPoint (reverse l)
All-reverse [] h = tt
All-reverse (x ∷ l) h =
    rw (reverse-cons x l)
      (All-append HasStopPoint (reverse l) (x ∷ []) (All-reverse l h.1) (h.0, tt))

Starts-iff :
    (vs : List NavStop) (ts : List FeedStop) → Starts (reverse vs) (reverse ts) ↔ IsEnding vs ts
Starts-iff vs ts = (
  λ h.
      let (a, b, e, c, p) = Starts-split (reverse vs) (reverse ts) h in
      record {
        before = reverse b;
        ending = reverse a;
        split = sym (reverse-reverse vs) ∙ ap reverse e ∙ reverse-append a b;
        codes = rw reverse-reverse at (AllCode-reverse a (reverse ts) c);
        stop_points = All-reverse b p;
      },
  λ k.
      rw (k.split, reverse-append)
        (Starts-append (reverse k.ending) (reverse k.before) (reverse ts)
          (AllCode-reverse k.ending ts k.codes) (All-reverse k.before k.stop_points)),
)

-- A trip of the feed is accepted exactly if its stops are the last stops of the vehicle journey, by
-- their source codes and in order, and all stops before have a stop point.
pub make_trip_update_iff :
    (contributor_id : String) (trip : FeedTrip) (vj : VehicleJourney)
    → (is_some (make_trip_update contributor_id trip vj) ≡ true)
      ↔ IsEnding (get_stop_times vj.navitia_vj) trip.stop_time_update
unfolding make_trip_update
make_trip_update_iff contributor_id trip vj =
    let vs = get_stop_times vj.navitia_vj in
    let start : Matched = record { stop_time_updates = []; highest_st_status = unchanged } in
    let m = match_stops_iff (reverse vs) (reverse trip.stop_time_update) (length vs - 1) start in
    let s = Starts-iff vs trip.stop_time_update in
    (λ h. s.0 (m.0 (ground arith)), λ k. let q = m.1 (s.1 k) in ground arith)
