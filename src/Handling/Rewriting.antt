-- ===== src/Handling/Rewriting.antt =====
-- How a feed rewrites the recorded trip updates (kirin/core/build_wrapper.py: `handle`).
use kirin.Prelude.{
  ℕ, suc, ◌+◌, length, Option, none, some, List, [], ◌∷◌, ◌++◌, Bool, true, false, Result, ok, err,
  Exception, ◌≡◌, ap, refl, sym, ◌∙◌, arith, Bool-cases, inl, inr, All,
}
use mathlib.Core.Path.{subst}
use kirin.Model.{TripUpdate}
use kirin.Merge.Loop.{MergeOutcome}
use kirin.Consistency.{manage_consistency}
use kirin.Handling.{
  Builder, Session, find_old, object_of, keep, link, link_consistent, take_reply, unless_raised,
  set_at, handle_trip_update, handle_trip_updates, is_same_circulation,
}

-- No row is of the circulation.
abbrev pub Unknown : TripUpdate → List TripUpdate → Type 0
Unknown tu rows = All (λ row. is_same_circulation tu row ≡ false) rows

-- What becomes of the object that the merge has changed.
abbrev pub managed : MergeOutcome → Bool → TripUpdate
managed merged true = (manage_consistency merged.res).0
managed merged false = merged.res

-- What the builder merges a trip update of the feed with a recorded one to.
abbrev pub merged_with : {P : Type 0} → Builder P → Option TripUpdate → TripUpdate → MergeOutcome
merged_with builder old tu = builder.merge_trip_updates tu.vj.navitia_vj old tu

-- The rows before and after the trip updates of a feed.
pub data Rewrites {P : Type 0} (builder : Builder P)
    : List TripUpdate → List TripUpdate → List TripUpdate → Type 0 where
  finished : (rows : List TripUpdate) → Rewrites builder [] rows rows
  unknown :
      (tu : TripUpdate) (rest rows rows' : List TripUpdate) (b : Bool)
      → Unknown tu rows
      → (merged_with builder none tu).reply ≡ ok b
      → Rewrites builder rest rows rows'
      → Rewrites builder (tu ∷ rest) rows rows'
  unknown_raised :
      (tu : TripUpdate) (rest rows : List TripUpdate) (e : Exception)
      → Unknown tu rows
      → (merged_with builder none tu).reply ≡ err e
      → Rewrites builder (tu ∷ rest) rows rows
  known :
      (tu : TripUpdate) (rest before after rows' : List TripUpdate) (old : TripUpdate) (b : Bool)
      → Unknown tu before × (is_same_circulation tu old ≡ true)
      → (merged_with builder (some old) tu).reply ≡ ok b
      → Rewrites builder rest
          (before ++ managed (merged_with builder (some old) tu) b ∷ after)
          rows'
      → Rewrites builder (tu ∷ rest) (before ++ old ∷ after) rows'
  known_raised :
      (tu : TripUpdate) (rest before after : List TripUpdate) (old : TripUpdate) (e : Exception)
      → Unknown tu before × (is_same_circulation tu old ≡ true)
      → (merged_with builder (some old) tu).reply ≡ err e
      → Rewrites builder
          (tu ∷ rest)
          (before ++ old ∷ after)
          (before ++ (merged_with builder (some old) tu).res ∷ after)

-- Where a row was found.
pub record Found (tu : TripUpdate) (rows : List TripUpdate) (i : ℕ) (j : ℕ) (old : TripUpdate)
    : Type 0 where
  pub before : List TripUpdate
  pub after : List TripUpdate
  pub at_rows : rows ≡ before ++ old ∷ after
  pub at_index : j ≡ i + length before
  pub first : Unknown tu before
  pub same : is_same_circulation tu old ≡ true

abbrev Finding : TripUpdate → ℕ → List TripUpdate → Option (ℕ × TripUpdate) → Type 0
Finding tu i rows none = Unknown tu rows
Finding tu i rows (some (j, old)) = Found tu rows i j old

Finding-cons :
    (tu : TripUpdate) (i : ℕ) (row : TripUpdate) (rows : List TripUpdate)
    (o : Option (ℕ × TripUpdate))
    → is_same_circulation tu row ≡ false
    → Finding tu (suc i) rows o
    → Finding tu i (row ∷ rows) o
Finding-cons tu i row rows none e h = (e, h)
Finding-cons tu i row rows (some (j, old)) e h = record {
  before = row ∷ h.before;
  after = h.after;
  at_rows = ap (λ l. row ∷ l) h.at_rows;
  at_index = omega (arith, h.at_index);
  first = (e, h.first);
  same = h.same;
}

find_old-Finding :
    (tu : TripUpdate) (i : ℕ) (rows : List TripUpdate) → Finding tu i rows (find_old tu i rows)
unfolding find_old
find_old-Finding tu i [] = tt
find_old-Finding tu i (row ∷ rows) = elim (Bool-cases (is_same_circulation tu row)) [
  | inl e ↦ rw e (record {
    before = [];
    after = rows;
    at_rows = refl;
    at_index = omega arith;
    first = tt;
    same = e;
  })
  | inr e ↦
      rw e
        (Finding-cons tu i row rows (find_old tu (suc i) rows) e (find_old-Finding tu (suc i) rows))
]

set_at-middle :
    (before : List TripUpdate) (old new : TripUpdate) (after : List TripUpdate)
    → set_at (length before) new (before ++ old ∷ after) ≡ before ++ new ∷ after
unfolding set_at
set_at-middle [] old new after = refl
set_at-middle (x ∷ before) old new after = ap (λ l. x ∷ l) (set_at-middle before old new after)

Found-set_at :
    (tu new old : TripUpdate) (rows : List TripUpdate) (j : ℕ) (f : Found tu rows 0 j old)
    → set_at j new rows ≡ f.before ++ new ∷ f.after
Found-set_at tu new old rows j f =
    let at : j ≡ length f.before = omega (arith, f.at_index) in
    ap (λ i. set_at i new rows) at
    ∙ (ap (set_at (length f.before) new) f.at_rows ∙ set_at-middle f.before old new f.after)

-- The recorded rows once a trip update is kept or linked.
abbrev written : Option (ℕ × TripUpdate) → TripUpdate → List TripUpdate → List TripUpdate
written none new rows = rows
written (some (j, old)) new rows = set_at j new rows

keep-olds :
    (old : Option (ℕ × TripUpdate)) (tu : TripUpdate) (s : Session)
    → (keep old tu s).olds ≡ written old tu s.olds
unfolding keep
keep-olds none tu s = refl
keep-olds (some (j, o)) tu s = refl

link_consistent-olds :
    (old : Option (ℕ × TripUpdate)) (m : TripUpdate × Bool) (s : Session)
    → (link_consistent old m s).olds ≡ written old m.0 s.olds
unfolding link_consistent link
link_consistent-olds old (tu, false) s = keep-olds old tu s
link_consistent-olds none (tu, true) s = refl
link_consistent-olds (some (j, o)) (tu, true) s = refl

module _ {P : Type 0} (builder : Builder P) (tu : TripUpdate) (rest : List TripUpdate) where
  -- The rows are written where the circulation was found.
  written-Rewrites :
      (old : Option (ℕ × TripUpdate)) (b : Bool) (rows rows' : List TripUpdate)
      → Finding tu 0 rows old
      → (merged_with builder (object_of old) tu).reply ≡ ok b
      → Rewrites builder rest
          (written old (managed (merged_with builder (object_of old) tu) b) rows)
          rows'
      → Rewrites builder (tu ∷ rest) rows rows'
  written-Rewrites none b rows rows' f q r = unknown tu rest rows rows' b f q r
  written-Rewrites (some (j, old)) b rows rows' f q r =
      let new = managed (merged_with builder (some old) tu) b in
      subst (λ l. Rewrites builder (tu ∷ rest) l rows') (sym f.at_rows)
        (known tu rest f.before f.after rows' old b (f.first, f.same) q
          (subst (λ l. Rewrites builder rest l rows') (Found-set_at tu new old rows j f) r))

  raised-Rewrites :
      (old : Option (ℕ × TripUpdate)) (e : Exception) (rows : List TripUpdate)
      → Finding tu 0 rows old
      → (merged_with builder (object_of old) tu).reply ≡ err e
      → Rewrites builder
          (tu ∷ rest)
          rows
          (written old (merged_with builder (object_of old) tu).res rows)
  raised-Rewrites none e rows f q = unknown_raised tu rest rows e f q
  raised-Rewrites (some (j, old)) e rows f q =
      let new = (merged_with builder (some old) tu).res in
      subst (λ l. Rewrites builder (tu ∷ rest) rows l) (sym (Found-set_at tu new old rows j f))
        (subst (λ l. Rewrites builder (tu ∷ rest) l (f.before ++ new ∷ f.after)) (sym f.at_rows)
          (known_raised tu rest f.before f.after old e (f.first, f.same) q))

  round-Rewrites :
      (old : Option (ℕ × TripUpdate)) (s : Session) (reply : Result Bool)
      → ((s' : Session)
          → Rewrites builder rest s'.olds (handle_trip_updates builder rest s').0.olds)
      → Finding tu 0 s.olds old
      → (merged_with builder (object_of old) tu).reply ≡ reply
      → Rewrites builder
          (tu ∷ rest)
          s.olds
          (unless_raised
            (take_reply old (merged_with builder (object_of old) tu).res reply s)
            (λ s'. handle_trip_updates builder rest s')).0.olds
  unfolding unless_raised take_reply
  round-Rewrites old s (err e) next f q =
      let res = (merged_with builder (object_of old) tu).res in
      subst (λ l. Rewrites builder (tu ∷ rest) s.olds l) (sym (keep-olds old res s))
        (raised-Rewrites old e s.olds f q)
  round-Rewrites old s (ok false) next f q =
      let s' = keep old (merged_with builder (object_of old) tu).res s in
      written-Rewrites old false s.olds (handle_trip_updates builder rest s').0.olds f q (
        subst (λ l. Rewrites builder rest l (handle_trip_updates builder rest s').0.olds)
          (keep-olds old (merged_with builder (object_of old) tu).res s) (next s'))
  round-Rewrites old s (ok true) next f q =
      let m = manage_consistency (merged_with builder (object_of old) tu).res in
      let s' = link_consistent old m s in
      written-Rewrites old true s.olds (handle_trip_updates builder rest s').0.olds f q (
        subst (λ l. Rewrites builder rest l (handle_trip_updates builder rest s').0.olds)
          (link_consistent-olds old m s) (next s'))

-- The loop of `handle` over the trip updates of a feed.
pub handle_trip_updates-Rewrites :
    {P : Type 0} (builder : Builder P) (tus : List TripUpdate) (s : Session)
    → Rewrites builder tus s.olds (handle_trip_updates builder tus s).0.olds
unfolding handle_trip_updates handle_trip_update
handle_trip_updates-Rewrites builder [] s = finished s.olds
handle_trip_updates-Rewrites builder (tu ∷ rest) s =
    let old = find_old tu 0 s.olds in
    round-Rewrites builder tu rest old s (merged_with builder (object_of old) tu).reply
      (λ s'. handle_trip_updates-Rewrites builder rest s') (find_old-Finding tu 0 s.olds) refl
