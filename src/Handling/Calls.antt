-- ===== src/Handling/Calls.antt =====
-- The call that is recorded for each feed (kirin/core/build_wrapper.py: `wrap_build`).
use kirin.Prelude.{
  ℕ, ℤ, String, Option, List, [], ◌∷◌, Bool, true, if◌then◌else◌, Result, ok, err, Exception, ◌≡◌,
  ap, ◌∙◌, refl, Bool-cases, inl, inr,
}
use kirin.Model.{TripUpdate}
use kirin.Feed.{PbTripUpdate, convert_to_gtfsrt}
use kirin.RtUpdates.{Store, db_commit}
use kirin.Handling.{
  Builder, World, Session, Link, CallStatus, status_ok, failure, warning,
  is_invalid_input_exception, publish, linked, conclude, with_store, deliver, handle,
  handle_trip_updates, process_rt_update, process_trip_updates, with_session, after_publish, send,
  finish_call, settle_failure, wrap_build,
}

conclude-calls :
    {P : Type 0} (builder : Builder P) (now : ℤ) (id : ℕ) (links : List Link) (w : World)
    → ((conclude builder now id links w).calls ≡ w.calls)
      × ((conclude builder now id links w).published ≡ w.published)
unfolding conclude
conclude-calls builder now id [] w = (refl, refl)
conclude-calls builder now id (l ∷ links) w = (refl, refl)

abbrev pub PublishedOne : (List PbTripUpdate → Bool) → World → World → Type 0
PublishedOne broker w w' =
    (feed : List PbTripUpdate) × (w'.published ≡ feed ∷ w.published) × (broker feed ≡ true)

-- One feed is published, and the broker has taken it, if there is no error; none if there is one.
abbrev pub Published : (List PbTripUpdate → Bool) → World → World × Result (Unit {0}) → Type 0
Published broker w (w', ok t) = PublishedOne broker w w'
Published broker w (w', err e) = w'.published ≡ w.published

-- The calls stay.
abbrev SameCalls : World → World × Result (Unit {0}) → Type 0
SameCalls w r = r.0.calls ≡ w.calls

publish-Published :
    (broker : List PbTripUpdate → Bool) (feed : List PbTripUpdate) (w : World)
    → Published broker w (publish broker feed w) × SameCalls w (publish broker feed w)
unfolding publish
publish-Published broker feed w = elim (Bool-cases (broker feed)) [
  | inl b ↦ rw (publish, b) ((feed, refl, b), refl)
  | inr b ↦ rw (publish, b) (refl, refl)
]

after_publish-Published :
    {P : Type 0} (builder : Builder P) (broker : List PbTripUpdate → Bool) (now : ℤ) (id : ℕ)
    (links : List Link) (w : World) (r : World × Result (Unit {0}))
    → Published broker w r × SameCalls w r
    → Published broker w (after_publish builder now id links r)
      × SameCalls w (after_publish builder now id links r)
unfolding after_publish
after_publish-Published builder broker now id links w (w', err e) h = h
after_publish-Published builder broker now id links w (w', ok t) ((feed, p, b), c) =
    let (c', p') = conclude-calls builder now id links w' in ((feed, p' ∙ p, b), c' ∙ c)

send-Published :
    {P : Type 0} (builder : Builder P) (broker : List PbTripUpdate → Bool) (now : ℤ) (id : ℕ)
    (links : List Link) (feed : Result (List PbTripUpdate)) (w : World)
    → Published broker w (send builder broker now id links feed w)
      × SameCalls w (send builder broker now id links feed w)
unfolding send
send-Published builder broker now id links (err e) w = (refl, refl)
send-Published builder broker now id links (ok feed) w =
    after_publish-Published builder broker now id links w (publish broker feed w)
      (publish-Published broker feed w)

deliver-Published :
    {P : Type 0} (builder : Builder P) (broker : List PbTripUpdate → Bool) (now : ℤ) (id : ℕ)
    (w : World) (looped : Session × Result (Unit {0}))
    → Published broker w (deliver builder broker now id w looped)
      × SameCalls w (deliver builder broker now id w looped)
unfolding deliver
deliver-Published builder broker now id w (s, err e) = (refl, refl)
deliver-Published builder broker now id w (s, ok t) =
    send-Published builder broker now id s.links (convert_to_gtfsrt (linked s s.links))
      (record (with_session s w) { store = db_commit now w.store })

process_trip_updates-Published :
    {P : Type 0} (builder : Builder P) (broker : List PbTripUpdate → Bool) (now : ℤ) (w : World)
    (id : ℕ) (r : Store × Result (List TripUpdate))
    → let p = process_trip_updates builder broker now w id r in
      Published broker w (p.world, p.reply) × SameCalls w (p.world, p.reply)
unfolding process_trip_updates handle
process_trip_updates-Published builder broker now w id (s, err e) = (refl, refl)
process_trip_updates-Published builder broker now w id (s, ok tus) =
    let start : Session = record { olds = w.trip_updates; news = []; links = [] } in
    deliver-Published builder broker now id (with_store s w) (handle_trip_updates builder tus start)

process-Published :
    {P : Type 0} (builder : Builder P) (broker : List PbTripUpdate → Bool) (now : ℤ) (w : World)
    (built : Store × Result (ℕ × P))
    → let p = process_rt_update builder broker now w built in
      Published broker w (p.world, p.reply) × SameCalls w (p.world, p.reply)
unfolding process_rt_update
process-Published builder broker now w (s, err e) = (refl, refl)
process-Published builder broker now w (s, ok (id, attached)) =
    process_trip_updates-Published builder broker now w id
      (builder.build_trip_updates (id, attached) w.trip_updates s)

-- The status that stands for an outcome.
abbrev pub call_status : Result (Unit {0}) → CallStatus
call_status (ok t) = status_ok
call_status (err e) = if is_invalid_input_exception e then warning else failure

finish_call-Published :
    {P : Type 0} (builder : Builder P) (broker : List PbTripUpdate → Bool)
    (error_text : Exception → String) (now : ℤ) (w w' : World) (rt_update : Option ℕ)
    (r : Result (Unit {0}))
    → Published broker w (w', r) × SameCalls w (w', r)
    → let f = finish_call builder error_text now w' rt_update r in
      Published broker w f × (f.0.calls ≡ call_status f.1 ∷ w.calls)
unfolding finish_call settle_failure
finish_call-Published builder broker error_text now w w' rt_update (ok t) (p, c) =
    (p, ap (λ (l : List CallStatus). status_ok ∷ l) c)
finish_call-Published builder broker error_text now w w' rt_update (err e) (p, c) =
    (p, ap (λ (l : List CallStatus). call_status (err e) ∷ l) c)

-- For any builder, broker and feed: one call is recorded, "OK" where nothing was raised, "warning"
-- for an invalid input and "failure" for any other exception; and one feed is published, which the
-- broker has taken, where nothing was raised, none otherwise.
pub wrap_build_call :
    {P : Type 0} (builder : Builder P) (broker : List PbTripUpdate → Bool)
    (error_text : Exception → String) (now : ℤ) (input_raw : String) (w : World)
    → let r = wrap_build builder broker error_text now input_raw w in
      Published broker w r × (r.0.calls ≡ call_status r.1 ∷ w.calls)
unfolding wrap_build
wrap_build_call builder broker error_text now input_raw w =
    let p = process_rt_update builder broker now w (builder.build_rt_update input_raw w.store) in
    finish_call-Published builder broker error_text now w p.world p.rt_update p.reply
      (process-Published builder broker now w (builder.build_rt_update input_raw w.store))
