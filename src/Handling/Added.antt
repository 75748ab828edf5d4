-- ===== src/Handling/Added.antt =====
-- The trip updates that a feed adds to the database (kirin/core/build_wrapper.py: `handle`).
use kirin.Prelude.{
  ℕ, ℤ, Option, none, some, List, [], ◌∷◌, ◌++◌, Bool, true, false, Result, ok, err, ◌≡◌, refl,
  Bool-cases, inl, inr, All, All-append, ◌∙◌,
}
use kirin.Model.{TripUpdate}
use kirin.Feed.{PbTripUpdate, convert_to_gtfsrt}
use kirin.Consistency.{manage_consistency}
use kirin.Consistency.Sequence.{InSequence, IsComplete, manage_consistency_accepted}
use kirin.Handling.Rewriting.{Rewrites, handle_trip_updates-Rewrites}
use kirin.Handling.{
  Builder, World, Session, Link, find_old, object_of, keep, link, link_consistent, take_reply,
  unless_raised, linked, conclude, after_publish, publish, send, deliver, handle,
  handle_trip_update, handle_trip_updates,
}

-- The orders count up from 0, and all times and delays are known.
abbrev pub IsConsistent : TripUpdate → Type 0
IsConsistent tu = InSequence 0 tu.stop_time_updates × All IsComplete tu.stop_time_updates

-- The new trip updates of a session are consistent.
abbrev AllNew : Session → Type 0
AllNew s = All IsConsistent s.news

keep-AllNew :
    (old : Option (ℕ × TripUpdate)) (tu : TripUpdate) (s : Session)
    → AllNew s
    → AllNew (keep old tu s)
unfolding keep
keep-AllNew none tu s h = h
keep-AllNew (some (i, o)) tu s h = h

link_consistent-AllNew :
    (old : Option (ℕ × TripUpdate)) (managed : TripUpdate × Bool) (s : Session)
    → (managed.1 ≡ true → IsConsistent managed.0)
    → AllNew s
    → AllNew (link_consistent old managed s)
unfolding link_consistent link
link_consistent-AllNew old (tu, false) s c h = keep-AllNew old tu s h
link_consistent-AllNew none (tu, true) s c h =
    All-append IsConsistent s.news (tu ∷ []) h (c refl, tt)
link_consistent-AllNew (some (i, o)) (tu, true) s c h = h

take_reply-AllNew :
    (old : Option (ℕ × TripUpdate)) (res : TripUpdate) (reply : Result Bool) (s : Session)
    → AllNew s
    → AllNew (take_reply old res reply s).0
unfolding take_reply
take_reply-AllNew old res (err e) s h = keep-AllNew old res s h
take_reply-AllNew old res (ok false) s h = keep-AllNew old res s h
take_reply-AllNew old res (ok true) s h =
    link_consistent-AllNew old (manage_consistency res) s (manage_consistency_accepted res) h

unless_raised-AllNew :
    (r : Session × Result (Unit {0})) (next : Session → Session × Result (Unit {0}))
    → ((s : Session) → AllNew s → AllNew (next s).0)
    → AllNew r.0
    → AllNew (unless_raised r next).0
unfolding unless_raised
unless_raised-AllNew (s, err e) next f h = h
unless_raised-AllNew (s, ok t) next f h = f s h

handle_trip_updates-AllNew :
    {P : Type 0} (builder : Builder P) (tus : List TripUpdate) (s : Session)
    → AllNew s
    → AllNew (handle_trip_updates builder tus s).0
unfolding handle_trip_updates handle_trip_update
handle_trip_updates-AllNew builder [] s h = h
handle_trip_updates-AllNew builder (tu ∷ rest) s h =
    let old = find_old tu 0 s.olds in
    let merged = builder.merge_trip_updates tu.vj.navitia_vj (object_of old) tu in
    unless_raised-AllNew (take_reply old merged.res merged.reply s) _
      (λ s' k. handle_trip_updates-AllNew builder rest s' k)
      (take_reply-AllNew old merged.res merged.reply s h)

-- The rows after the call: those that were recorded as the feed rewrites them, then consistent ones.
abbrev pub Extends : {P : Type 0} → Builder P → List TripUpdate → World → World → Type 0
Extends builder tus w w' =
    (s : Session) × (w'.trip_updates ≡ s.olds ++ s.news)
    × Rewrites builder tus w.trip_updates s.olds
    × All IsConsistent s.news

conclude-rows :
    {P : Type 0} (builder : Builder P) (now : ℤ) (id : ℕ) (links : List Link) (w : World)
    → (conclude builder now id links w).trip_updates ≡ w.trip_updates
unfolding conclude
conclude-rows builder now id [] w = refl
conclude-rows builder now id (l ∷ links) w = refl

after_publish-rows :
    {P : Type 0} (builder : Builder P) (now : ℤ) (id : ℕ) (links : List Link)
    (r : World × Result (Unit {0}))
    → (after_publish builder now id links r).0.trip_updates ≡ r.0.trip_updates
unfolding after_publish
after_publish-rows builder now id links (w, err e) = refl
after_publish-rows builder now id links (w, ok t) = conclude-rows builder now id links w

publish-rows :
    (broker : List PbTripUpdate → Bool) (feed : List PbTripUpdate) (w : World)
    → (publish broker feed w).0.trip_updates ≡ w.trip_updates
unfolding publish
publish-rows broker feed w = elim (Bool-cases (broker feed)) [
  | inl b ↦ rw (publish, b) refl
  | inr b ↦ rw (publish, b) refl
]

send-rows :
    {P : Type 0} (builder : Builder P) (broker : List PbTripUpdate → Bool) (now : ℤ) (id : ℕ)
    (links : List Link) (feed : Result (List PbTripUpdate)) (w : World)
    → (send builder broker now id links feed w).0.trip_updates ≡ w.trip_updates
unfolding send
send-rows builder broker now id links (err e) w = refl
send-rows builder broker now id links (ok feed) w =
    after_publish-rows builder now id links (publish broker feed w) ∙ publish-rows broker feed w

deliver-Extends :
    {P : Type 0} (builder : Builder P) (broker : List PbTripUpdate → Bool) (now : ℤ) (id : ℕ)
    (tus : List TripUpdate) (w : World) (looped : Session × Result (Unit {0}))
    → Rewrites builder tus w.trip_updates looped.0.olds
    → All IsConsistent looped.0.news
    → Extends builder tus w (deliver builder broker now id w looped).0
unfolding deliver
deliver-Extends builder broker now id tus w (s, err e) r c = (s, refl, r, c)
deliver-Extends builder broker now id tus w (s, ok t) r c =
    (s, send-rows builder broker now id s.links (convert_to_gtfsrt (linked s s.links)) _, r, c)

-- For any builder, broker and feed, also where `handle` raises: the recorded rows are rewritten by the
-- trip updates of the feed one after another, until one raises. Each of these rewrites the first row of
-- its circulation to what the merge leaves, passed through `manage_consistency` if the merge tells of a
-- change, and rewrites no other row; it rewrites none if there is no such row. After these come the new
-- rows, which are consistent: their orders count up from 0, and all their times and delays are known.
pub handle_added :
    {P : Type 0} (builder : Builder P) (broker : List PbTripUpdate → Bool) (now : ℤ) (id : ℕ)
    (tus : List TripUpdate) (w : World)
    → Extends builder tus w (handle builder broker now id tus w).0
unfolding handle
handle_added builder broker now id tus w =
    let start : Session = record { olds = w.trip_updates; news = []; links = [] } in
    deliver-Extends builder broker now id tus w (handle_trip_updates builder tus start)
      (handle_trip_updates-Rewrites builder tus start)
      (handle_trip_updates-AllNew builder tus start tt)
