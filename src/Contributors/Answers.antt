-- ===== src/Contributors/Answers.antt =====
-- What the requests on contributors (kirin/resources/contributors.py) answer after one another.
use kirin.Prelude.{
  ==_iff, ◌==◌, some_injective, ◌≢◌, ◌⊎◌, ℤ, pos, Bool, true, String, Option, none, some, List, [],
  ◌∷◌, ◌++◌, false, ◌≡◌, refl, ap, arith, exists, find_first, Bool-cases, inl, inr, ==_refl,
  string_eq,
}
use kirin.Complete.Values.{missing, null, value}
use kirin.Model.{text_truthy}
use kirin.Contributors.Rows.{Contributor, has_id}
use kirin.Contributors.Requests.{
  http_ok, created, valid, PostData, is_partial, or_id, new_contributor, insert_contributor,
  post_contributor, get_contributors, answer_one,
}

found_last :
    (id : String) (rows : List Contributor) (c : Contributor)
    → exists (has_id id) rows ≡ false
    → c.id ≡ id
    → find_first (has_id id) (rows ++ c ∷ []) ≡ some c
unfolding exists find_first
found_last id [] c h e = rw (e, ==_refl id) refl
found_last id (x ∷ rows) c h e = ground (arith, found_last id rows c)

-- A row with the values of a POST: ten seconds for an interval that is missing or null, and active if
-- nothing is said of it.
pub record IsPosted (data_ : PostData) (c : Contributor) : Type 0 where
  pub coverage : c.navitia_coverage ≡ data_.navitia_coverage
  pub token : c.navitia_token ≡ data_.navitia_token
  pub url : c.feed_url ≡ data_.feed_url
  pub connector : c.connector_type ≡ data_.connector_type
  pub broker : c.broker_url ≡ data_.broker_url
  pub exchange : c.exchange_name ≡ data_.exchange_name
  pub queue : c.queue_name ≡ data_.queue_name
  pub trip_days : c.nb_days_to_keep_trip_update ≡ data_.nb_days_to_keep_trip_update
  pub rt_days : c.nb_days_to_keep_rt_update ≡ data_.nb_days_to_keep_rt_update
  pub given_interval : (n : ℤ) → data_.retrieval_interval ≡ value n → c.retrieval_interval ≡ some n
  pub null_interval : data_.retrieval_interval ≡ null → c.retrieval_interval ≡ some (pos 10)
  pub default_interval : data_.retrieval_interval ≡ missing → c.retrieval_interval ≡ some (pos 10)
  pub given_active : (b : Bool) → data_.is_active ≡ some b → c.is_active ≡ b
  pub default_active : data_.is_active ≡ none → c.is_active ≡ true

new_contributor-IsPosted :
    (id : String) (data_ : PostData) → IsPosted data_ (new_contributor id data_)
unfolding new_contributor
new_contributor-IsPosted id data_ = record {
  coverage = refl;
  token = refl;
  url = refl;
  connector = refl;
  broker = refl;
  exchange = refl;
  queue = refl;
  trip_days = refl;
  rt_days = refl;
  given_interval = λ n. λ e. rw e refl;
  null_interval = λ e. rw e refl;
  default_interval = λ e. rw e refl;
  given_active = λ b. λ e. rw e refl;
  default_active = λ e. rw e refl;
}

-- A GET of the key answers the one row, which has the values of the POST.
abbrev pub Found : String → PostData → List Contributor → Type 0
Found key data_ rows =
    (c : Contributor) × (get_contributors (some key) rows
      ≡ record { status = http_ok; contributors = c ∷ [] })
    × (c.id ≡ key)
    × IsPosted data_ c

insert_contributor-get :
    (id : Option String) (data_ : PostData) (rows : List Contributor)
    → (insert_contributor id data_ rows).1.status ≡ created
    → (key : String) × (id ≡ some key) × Found key data_ (insert_contributor id data_ rows).0
unfolding insert_contributor get_contributors new_contributor
insert_contributor-get none data_ rows h = cc
insert_contributor-get (some id) data_ rows h = elim (Bool-cases (exists (has_id id) rows)) [
  | inl e ↦ ground arith
  | inr e ↦ (
    id,
    refl,
    (
      new_contributor id data_,
      rw e (ap (answer_one http_ok) (found_last id rows (new_contributor id data_) e refl)),
      refl,
      new_contributor-IsPosted id data_,
    ),
  )
]

-- The id of the URL, or that of the body where the URL has none or an empty one.
abbrev pub IsKey : Option String → Option String → String → Type 0
IsKey none data_id key = data_id ≡ some key
IsKey (some id) data_id key = ((id ≢ "") × (id ≡ key)) ⊎ ((id ≡ "") × (data_id ≡ some key))

or_id-IsKey :
    (id data_id : Option String) (key : String) → or_id id data_id ≡ some key → IsKey id data_id key
unfolding or_id text_truthy
or_id-IsKey none data_id key h = h
or_id-IsKey (some id) data_id key h = elim (Bool-cases (id == "")) [
  | inl e ↦ inr ((==_iff id "").0 e, rw e at h)
  | inr e ↦ inl ((λ q. let t = (==_iff id "").1 q in ground arith), some_injective (rw e at h))
]

-- A contributor that a POST has created is answered to a GET of its id, which is that of the URL or
-- of the body, with each of the values of the POST; an interval that is missing or null is ten seconds,
-- and it is active if nothing is said of it.
pub post_contributor-get :
    (id : Option String) (data_ : PostData) (rows : List Contributor)
    → (post_contributor id (valid data_) rows).1.status ≡ created
    → (key : String) × IsKey id data_.id key
      × Found key data_ (post_contributor id (valid data_) rows).0
unfolding post_contributor
post_contributor-get id data_ rows h =
    elim (Bool-cases (is_partial data_.broker_url data_.exchange_name data_.queue_name)) [
      | inl e ↦ ground arith
      | inr e ↦
          let (key, k, found) = insert_contributor-get (or_id id data_.id) data_ rows (rw e at h) in
          (key, or_id-IsKey id data_.id key k, rw e found)
    ]
