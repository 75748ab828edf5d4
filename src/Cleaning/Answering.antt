-- ===== src/Cleaning/Answering.antt =====
-- When a request for all the real time is answered (kirin/rabbitmq_handler.py: `_on_request`).
use kirin.Prelude.{
  ℤ, pos, ltb_ℤ, String, Option, none, some, List, [], ◌∷◌, map, ◌≡◌, ◌↔◌, refl, ap, arith, Bool,
  true, false, not, ◌&&◌, ◌||◌, ◌==◌, string_eq, All, exists, select, >>=-eq-ok, ok, Result,
}
use kirin.Model.{combine, TripUpdate}
use kirin.Feed.{PbTripUpdate, convert_to_gtfsrt}
use kirin.Feed.Totality.{IsPublishable, AllDescribe, convert_to_gtfsrt_iff, convert_to_gtfsrt_inv}
use kirin.Cleaning.Database.{
  TripUpdateRow, Database, find_by_contributor_period, is_in_period, starts_from, starts_before,
}
use kirin.Cleaning.Loading.{Task, str_to_date, trip_updates_of, on_request}

-- A text that bounds nothing: it is empty, or no date.
abbrev pub is_unbounded : (String → Option ℤ) → String → Bool
is_unbounded parse_date s = (s == "") || elim (parse_date s) [ none ↦ true | some date ↦ false ]

-- The midnight with which a date that was read starts.
abbrev pub midnight : Option ℤ → ℤ
midnight none = pos 0
midnight (some date) = combine date 0

-- The trip starts on the first date or later, and before the last one.
abbrev pub is_wanted : (String → Option ℤ) → Task → TripUpdateRow → Bool
is_wanted parse_date task row =
    let start = row.trip_update.vj.start_timestamp in
    exists (λ id. id == row.trip_update.contributor_id) task.contributors
    && ((is_unbounded parse_date task.begin_date
          || not (ltb_ℤ start (midnight (parse_date task.begin_date))))
        && (is_unbounded parse_date task.end_date
            || ltb_ℤ start (midnight (parse_date task.end_date))))

abbrev pub wanted : (String → Option ℤ) → Task → Database → List TripUpdate
wanted parse_date task db =
    map (λ (row : TripUpdateRow). row.trip_update)
      (select (is_wanted parse_date task) db.trip_updates)

is_in_period-wanted :
    (parse_date : String → Option ℤ) (task : Task) (row : TripUpdateRow)
    → is_in_period task.contributors
        (str_to_date parse_date task.begin_date)
        (str_to_date parse_date task.end_date)
        row
      ≡ is_wanted parse_date task row
unfolding is_in_period str_to_date starts_from starts_before
is_in_period-wanted parse_date task row = ground arith

select_same :
    (p q : TripUpdateRow → Bool) (rows : List TripUpdateRow)
    → ((row : TripUpdateRow) → p row ≡ q row)
    → select p rows ≡ select q rows
unfolding select
select_same p q [] k = refl
select_same p q (row ∷ rows) k = rw (k row, select_same p q rows k) refl

asked-wanted :
    (parse_date : String → Option ℤ) (task : Task) (db : Database)
    → trip_updates_of (
        find_by_contributor_period task.contributors
          (str_to_date parse_date task.begin_date)
          (str_to_date parse_date task.end_date)
          db)
      ≡ wanted parse_date task db
unfolding find_by_contributor_period
asked-wanted parse_date task db = ap trip_updates_of (
    select_same _ (is_wanted parse_date task) db.trip_updates (is_in_period-wanted parse_date task))

-- What is published for a request: nothing if it cannot be decoded or asks for something else.
abbrev pub Answered :
    (String → Option ℤ)
    → Option Task
    → Database
    → Result (Option (String × List PbTripUpdate))
    → Type 0
Answered parse_date none db r = r ≡ ok none
Answered parse_date (some task) db r =
    (task.is_load_realtime ≡ false → r ≡ ok none)
    × (task.is_load_realtime ≡ true
        → ((feed : List PbTripUpdate) × (r ≡ ok (some (task.queue_name, feed)))
            × AllDescribe (wanted parse_date task db) feed)
          ↔ All IsPublishable (wanted parse_date task db))

-- A request for all the real time is answered exactly if all trip updates that it wants can be
-- published: those of its contributors whose trip starts on its first date or later and before its last
-- date, where a date that is empty or cannot be read bounds nothing. The feed then goes to the queue of
-- the request and has one entity for each of them, in their order, which describes it. Nothing is
-- published for a request that cannot be decoded or asks for something else.
pub on_request_iff :
    (parse_date : String → Option ℤ) (task : Option Task) (db : Database)
    → Answered parse_date task db (on_request parse_date task db)
unfolding on_request
on_request_iff parse_date none db = refl
on_request_iff parse_date (some task) db =
    let same = asked-wanted parse_date task db in
    let (_, b) = convert_to_gtfsrt_iff (wanted parse_date task db) in
    (
      (λ h. rw h refl),
      (λ h. (
        (λ (feed, e, d).
            let (made, q, _) =
              >>=-eq-ok (convert_to_gtfsrt (wanted parse_date task db)) _ (rw (h, same) at e) in
            (convert_to_gtfsrt_inv (wanted parse_date task db) made q).0),
        (λ p. let (feed, e, d) = b p in (feed, rw (h, same, e) refl, d)),
      )),
    )
