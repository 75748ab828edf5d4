-- ===== src/Contributors/Stopping.antt =====
-- When a PIV worker (kirin/command/piv_worker.py) lets itself die.
use kirin.Prelude.{
  some_injective, Option, ◌&&◌, sym, ◌∙◌, ℤ, ◌-ℤ◌, ltb_ℤ, String, none, some, List, [], ◌∷◌, true,
  false, ◌≡◌, ◌≢◌, ◌↔◌, refl, arith, exists, find_first, select, Bool-cases, Option-cases, inl, inr,
  ==_iff, ==_refl, string_eq, option_eq,
}
use mathlib.Core.Path.{subst}
use kirin.Types.{ConnectorType}
use kirin.RtUpdates.{connector_beq}
use kirin.Model.{text_truthy}
use kirin.Contributors.Rows.{Contributor, has_id, find_by_connector_type, query_existing}
use kirin.Contributors.Requests.{no_content, delete_contributor, update_where, deactivate}
use kirin.Contributors.Workers.{
  PivWorker, get_piv_contributors, get_piv_contributor, is_config_changed, on_iteration,
  start_worker,
}

-- The configuration that a worker depends on.
abbrev SameConfig : PivWorker → Contributor → Type 0
SameConfig w c =
    (c.broker_url ≡ w.broker_url)
    × (c.navitia_coverage ≡ w.navitia_coverage)
    × (c.navitia_token ≡ w.navitia_token)
    × (c.exchange_name ≡ w.exchange)
    × (c.queue_name ≡ w.queue)

unchanged_iff :
    (w : PivWorker) (c : Contributor) → (is_config_changed w (some c) ≡ false) ↔ SameConfig w c
unfolding is_config_changed
unchanged_iff w c = (
  (λ h. (
    (==_iff c.broker_url w.broker_url).0 (ground arith),
    (==_iff c.navitia_coverage w.navitia_coverage).0 (ground arith),
    (==_iff c.navitia_token w.navitia_token).0 (ground arith),
    (==_iff c.exchange_name w.exchange).0 (ground arith),
    (==_iff c.queue_name w.queue).0 (ground arith),
  )),
  (λ (a, b, d, e, f).
      rw
        (
          a,
          b,
          d,
          e,
          f,
          ==_refl w.broker_url,
          ==_refl w.navitia_coverage,
          ==_refl w.navitia_token,
          ==_refl w.exchange,
          ==_refl w.queue,
        )
        refl),
)

none-some : {A : Type 0} {a : A} → none ≢ some a
none-some h = cc

changed_none : (w : PivWorker) → is_config_changed w none ≢ false
unfolding is_config_changed
changed_none w h = cc

checked_on_iteration :
    (interval now : ℤ) (rows : List Contributor) (w : PivWorker)
    → w.should_stop ≡ false
    → ltb_ℤ (now -ℤ w.last_config_checked_time) interval ≡ false
    → ((on_iteration interval now rows w).should_stop ≡ false)
      ↔ ((c : Contributor) × (get_piv_contributor w.contributor_id rows ≡ some c) × SameConfig w c)
unfolding on_iteration
checked_on_iteration interval now rows w s e =
    rw (e, s)
      (
        (λ h. elim (Option-cases (get_piv_contributor w.contributor_id rows)) [
          | inl q ↦ elim (changed_none w (rw q at h)) [ ]
          | inr (c, q) ↦ (c, q, (unchanged_iff w c).0 (rw q at h))
        ]),
        (λ (c, q, k). rw q ((unchanged_iff w c).1 k)),
      )

-- The row that a worker for a contributor depends on: active, of the id, and for PIV.
abbrev pub current_row : String → List Contributor → Option Contributor
current_row id rows =
    find_first
      (λ (c : Contributor).
        has_id id c && (c.is_active && connector_beq c.connector_type ConnectorType.piv))
      rows

get_piv_contributor-current :
    (id : String) (rows : List Contributor) → get_piv_contributor id rows ≡ current_row id rows
unfolding get_piv_contributor get_piv_contributors find_by_connector_type select find_first
get_piv_contributor-current id [] = refl
get_piv_contributor-current id (c ∷ rows) = ground (arith, get_piv_contributor-current id rows)

-- The settings that a worker depends on are the same in both rows.
abbrev pub SameSettings : Contributor → Contributor → Type 0
SameSettings before c =
    (c.broker_url ≡ before.broker_url)
    × (c.navitia_coverage ≡ before.navitia_coverage)
    × (c.navitia_token ≡ before.navitia_token)
    × (c.exchange_name ≡ before.exchange_name)
    × (c.queue_name ≡ before.queue_name)

abbrev started_worker : ℤ → Contributor → PivWorker
started_worker now c = record {
  last_config_checked_time = now;
  contributor_id = c.id;
  broker_url = c.broker_url;
  navitia_coverage = c.navitia_coverage;
  navitia_token = c.navitia_token;
  exchange = c.exchange_name;
  queue = c.queue_name;
  should_stop = false;
}

start_worker-eq :
    (now : ℤ) (c : Contributor) (w : PivWorker)
    → start_worker now c ≡ some w
    → started_worker now c ≡ w
unfolding start_worker
start_worker-eq now c w h =
    elim (Bool-cases (
      connector_beq c.connector_type ConnectorType.piv
      && (c.is_active
          && (text_truthy c.broker_url
              && (text_truthy c.exchange_name && text_truthy c.queue_name))))) [
                | inl e ↦ some_injective (rw e at h)
                | inr e ↦ absurd (none-some (rw e at h))
              ]

-- A worker that was started for a row of a contributor goes on after the first check of its
-- configuration, which takes place once the interval has passed, exactly if there is then an active
-- PIV contributor of this id, and the first such row has the broker, exchange, queue, coverage and
-- token of the row with which the worker was started.
pub on_iteration_continues :
    (interval started now : ℤ) (before : Contributor) (rows : List Contributor) (w : PivWorker)
    → start_worker started before ≡ some w
    → ltb_ℤ (now -ℤ started) interval ≡ false
    → ((on_iteration interval now rows w).should_stop ≡ false)
      ↔ ((c : Contributor) × (current_row before.id rows ≡ some c) × SameSettings before c)
on_iteration_continues interval started now before rows w h e =
    let (to, from) =
      checked_on_iteration interval now rows (started_worker started before) refl e in
    let found = get_piv_contributor-current before.id rows in
    subst
      (λ v.
        ((on_iteration interval now rows v).should_stop ≡ false)
        ↔ ((c : Contributor) × (current_row before.id rows ≡ some c) × SameSettings before c))
      (start_worker-eq started before w h)
      (
        (λ k. let (c, q, same) = to k in (c, sym found ∙ q, same)),
        (λ (c, q, same). from (c, found ∙ q, same)),
      )

not_found_piv :
    (id : String) (rows : List Contributor)
    → get_piv_contributor id (update_where (has_id id) deactivate rows) ≡ none
unfolding get_piv_contributor get_piv_contributors find_by_connector_type select update_where
    deactivate find_first
not_found_piv id [] = refl
not_found_piv id (c ∷ rows) = ground (arith, not_found_piv id rows)

-- Once its contributor is deleted, a worker stops at its next check, whatever the contributor was.
pub deleted_on_iteration :
    (interval now : ℤ) (rows : List Contributor) (w : PivWorker)
    → (delete_contributor (some w.contributor_id) rows).1.status ≡ no_content
    → ltb_ℤ (now -ℤ w.last_config_checked_time) interval ≡ false
    → (on_iteration interval now (delete_contributor (some w.contributor_id) rows).0 w).should_stop
      ≡ true
unfolding on_iteration delete_contributor is_config_changed
deleted_on_iteration interval now rows w h e =
    elim (Bool-cases (exists (has_id w.contributor_id) (query_existing rows))) [
      | inr q ↦ ground arith
      | inl q ↦ rw (q, e, not_found_piv w.contributor_id rows) (ground arith)
    ]
