-- ===== src/Entries/Retired.antt =====
-- Feeds of a contributor that was deleted (kirin/resources/contributors.py, kirin/piv/piv.py,
-- kirin/gtfs_rt/gtfs_rt.py, kirin/cots/cots.py).
use kirin.Prelude.{
  false, All, err, ok, Result, sub_service_error, ok_injective, ◌≢◌, ==_iff, ℤ, String, none, some,
  List, [], ◌∷◌, Bool, ◌&&◌, string_eq, find_first, exists, select, Exception, ◌≡◌, refl, arith,
  Bool-cases, inl, inr,
}
use mathlib.Core.Path.{subst}
use kirin.Types.{ConnectorType}
use kirin.RtUpdates.{connector_beq}
use kirin.Feed.{PbTripUpdate}
use kirin.Handling.{Builder, World}
use kirin.Contributors.Rows.{Contributor, find_by_connector_type, has_id, query_existing}
use kirin.Contributors.Requests.{no_content, delete_contributor, update_where, deactivate}
use kirin.Entries.{get_cots_contributor, Answer, post_feed}

err_ok : {A : Type 0} {e : Exception} {a : A} → err e ≢ ok a
err_ok h = cc

not_found_deleted :
    (type_ : ConnectorType) (id : String) (rows : List Contributor)
    → find_first
        (λ (c : Contributor). has_id id c && connector_beq c.connector_type type_)
        (query_existing (update_where (has_id id) deactivate rows))
      ≡ none
unfolding query_existing select update_where deactivate find_first
not_found_deleted type_ id [] = refl
not_found_deleted type_ id (c ∷ rows) = ground (arith, not_found_deleted type_ id rows)

others :
    (id : String) (rows : List Contributor)
    → All
        (λ c. has_id id c ≡ false)
        (find_by_connector_type ConnectorType.cots false (update_where (has_id id) deactivate rows))
unfolding find_by_connector_type select update_where deactivate
others id [] = tt
others id (x ∷ rows) = elim (Bool-cases (has_id id x)) [
  | inl e ↦ elim (Bool-cases (connector_beq x.connector_type ConnectorType.cots)) [
    | inl k ↦ rw (e, k) (others id rows)
    | inr k ↦ rw (e, k) (others id rows)
  ]
  | inr e ↦ elim (Bool-cases (connector_beq x.connector_type ConnectorType.cots && x.is_active)) [
    | inl k ↦ rw (e, k) (e, others id rows)
    | inr k ↦ rw (e, k) (others id rows)
  ]
]

first_of :
    (P : Contributor → Type 0) (l : List Contributor) (c : Contributor)
    → All P l
    → elim l as (λ _. Result Contributor) [ [] ↦ err sub_service_error | x ∷ _ ↦ ok x ] ≡ ok c
    → P c
first_of P [] c a h = absurd (err_ok h)
first_of P (x ∷ l) c a h = subst P (ok_injective h) a.0

cots_other :
    (id : String) (rows : List Contributor) (c : Contributor)
    → get_cots_contributor false (update_where (has_id id) deactivate rows) ≡ ok c
    → has_id id c ≡ false
unfolding get_cots_contributor
cots_other id rows c h =
    first_of (λ x. has_id id x ≡ false)
      (find_by_connector_type ConnectorType.cots false (update_where (has_id id) deactivate rows)) c
      (others id rows) h

-- Once a contributor is deleted, a feed that is sent for it to PIV or to GTFS-RT is answered by 404 and
-- changes nothing: nothing is recorded, published or counted, whatever the feed. And a COTS feed, which
-- names no contributor, is never handled for it: the one that is found is another, if any.
pub deleted_post :
    {P : Type 0} (make_builder : Contributor → Builder P) (broker : List PbTripUpdate → Bool)
    (error_text : Exception → String) (now : ℤ) (type_ : ConnectorType) (id data_ : String)
    (rows : List Contributor) (w : World)
    → (delete_contributor (some id) rows).1.status ≡ no_content
    → let left = (delete_contributor (some id) rows).0 in
      (post_feed make_builder broker error_text now type_ (some id) data_ left w
        ≡ (w, Answer.not_found))
      × ((c : Contributor) → get_cots_contributor false left ≡ ok c → c.id ≢ id)
unfolding post_feed delete_contributor
deleted_post make_builder broker error_text now type_ id data_ rows w h =
    elim (Bool-cases (exists (has_id id) (query_existing rows))) [
      | inr q ↦ ground arith
      | inl q ↦ (
        rw (q, post_feed, not_found_deleted type_ id rows) refl,
        λ c. λ e. λ same.
            let other = cots_other id rows c (rw q at e) in
            let own = (==_iff c.id id).1 same in ground arith,
      )
    ]
