-- ===== src/Polling/Newer.antt =====
-- Which feeds are new (kirin/gtfs_rt/tasks.py: `_is_newer`).
use kirin.Prelude.{
  String, Option, none, some, List, [], ◌∷◌, true, false, if◌then◌else◌, ◌==◌, ==_iff, ==_refl,
  string_eq, option_eq, ◌≡◌, ◌↔◌, refl, ◌∙◌, Bool-cases, Option-cases, inl, inr, exists, is_some,
}
use kirin.Model.{text_truthy}
use kirin.RtUpdates.{Store}
use kirin.RtUpdates.Memory.{is_remembered}
use kirin.Polling.{get_etag, set_etag, compare_etag, Head, raised, answered, is_newer}

pub is_some-get_etag :
    (contributor : String) (keys : List (String × String))
    → is_some (get_etag contributor keys) ≡ is_remembered contributor keys
unfolding get_etag exists
is_some-get_etag contributor [] = refl
is_some-get_etag contributor (k ∷ keys) =
    let ih = is_some-get_etag contributor keys in
    elim (Bool-cases (k.0 == contributor)) [ inl b ↦ rw b refl | inr b ↦ rw b ih ]

pub get_etag-set_etag :
    (contributor etag : String) (s : Store)
    → get_etag contributor (set_etag contributor etag s).etags ≡ some etag
unfolding get_etag set_etag
get_etag-set_etag contributor etag s = rw (==_refl contributor) refl

compare_etag-known :
    (contributor etag : String) (s : Store)
    → get_etag contributor s.etags ≡ some etag
    → compare_etag contributor (some etag) s ≡ (s, false)
unfolding compare_etag
compare_etag-known contributor etag s e =
    let b = (==_iff (get_etag contributor s.etags) (some etag)).1 e in rw b refl

compare_etag-unknown :
    (contributor etag : String) (s : Store)
    → (get_etag contributor s.etags == some etag) ≡ false
    → compare_etag contributor (some etag) s ≡ (set_etag contributor etag s, true)
unfolding compare_etag
compare_etag-unknown contributor etag s b = rw b refl

is_newer-tested :
    (contributor etag : String) (s : Store)
    → text_truthy (some etag) ≡ true
    → is_newer contributor (answered (some etag)) s ≡ compare_etag contributor (some etag) s
unfolding is_newer
is_newer-tested contributor etag s h = rw h refl

-- A feed that has an ETag is skipped exactly if this ETag is the one remembered of its contributor.
pub is_newer_iff :
    (contributor etag : String) (s : Store)
    → text_truthy (some etag) ≡ true
    → ((is_newer contributor (answered (some etag)) s).1 ≡ false)
      ↔ (get_etag contributor s.etags ≡ some etag)
is_newer_iff contributor etag s h =
    let t = is_newer-tested contributor etag s h in
    elim (Bool-cases (get_etag contributor s.etags == some etag)) [
      | inl b ↦
          let e = (==_iff (get_etag contributor s.etags) (some etag)).0 b in
          ((λ q. e), (λ q. rw (t, compare_etag-known contributor etag s e) refl))
      | inr b ↦ (
        (λ q. let k = rw (t, compare_etag-unknown contributor etag s b) at q in cc),
        (λ q. let k = (==_iff (get_etag contributor s.etags) (some etag)).1 q in cc),
      )
    ]

-- An answer with an ETag is not new a second time, whatever was remembered.
pub is_newer_once :
    (contributor etag : String) (s : Store)
    → text_truthy (some etag) ≡ true
    → (is_newer contributor
        (answered (some etag))
        (is_newer contributor (answered (some etag)) s).0).1
      ≡ false
is_newer_once contributor etag s h =
    let t = is_newer-tested contributor etag s h in
    elim (Bool-cases (get_etag contributor s.etags == some etag)) [
      | inl b ↦
          let k =
            compare_etag-known contributor etag s
              ((==_iff (get_etag contributor s.etags) (some etag)).0 b) in
          rw (t, k, t, k) refl
      | inr b ↦
          let s' = set_etag contributor etag s in
          rw
            (
              t,
              compare_etag-unknown contributor etag s b,
              is_newer-tested contributor etag s' h,
              compare_etag-known contributor etag s' (get_etag-set_etag contributor etag s),
            )
            refl
    ]

compared :
    (contributor : String) (new_etag : Option String) (s : Store)
    → is_remembered contributor s.etags ≡ false
    → (compare_etag contributor new_etag s).1 ≡ true
unfolding compare_etag
compared contributor none s h = refl
compared contributor (some etag) s h =
    let e = is_some-get_etag contributor s.etags in
    elim (Option-cases (get_etag contributor s.etags)) [
      | inl n ↦ rw n refl
      | inr (x, k) ↦ let q = rw k at (e ∙ h) in cc
    ]

-- Where no ETag is remembered, every answer is new.
pub is_newer_forgotten :
    (contributor : String) (head : Head) (s : Store)
    → is_remembered contributor s.etags ≡ false
    → (is_newer contributor head s).1 ≡ true
unfolding is_newer compare_etag
is_newer_forgotten contributor raised s h = refl
is_newer_forgotten contributor (answered new_etag) s h =
    compared contributor (if text_truthy new_etag then new_etag else none) s h
