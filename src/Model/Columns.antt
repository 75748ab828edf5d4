-- ===== src/Model/Columns.antt =====
-- `StopTimeUpdate.is_not_equal` (kirin/core/model.py) against equality of the columns.
use kirin.Prelude.{
  Bool, false, not, ◌||◌, ◌==◌, nat_eq, int_eq, string_eq, option_eq, Eq, ==_iff, ◌≡◌, ◌↔◌, arith,
}
use kirin.Types.{status_eq}
use kirin.Model.StopUpdates.{StopTimeUpdate, SameColumns, is_not_equal}

eq_of_not-false {ℓ} : {A : Type ℓ} ⦃e : Eq A⦄ (a b : A) → not (a == b) ≡ false → a ≡ b
eq_of_not-false a b h = (==_iff a b).0 (ground arith)

not_eq_of_eq {ℓ} : {A : Type ℓ} ⦃e : Eq A⦄ (a b : A) → a ≡ b → not (a == b) ≡ false
not_eq_of_eq a b h = let q = (==_iff a b).1 h in ground arith

or_false_intro : {a b : Bool} → a ≡ false → b ≡ false → (a || b) ≡ false
or_false_intro h k = ground arith

or_false : (a b : Bool) → (a || b) ≡ false → (a ≡ false) × (b ≡ false)
or_false a b h = ground arith

pub is_not_equal-SameColumns : (a b : StopTimeUpdate) → is_not_equal a b ≡ false → SameColumns a b
unfolding is_not_equal
is_not_equal-SameColumns a b h =
    let (h1, r1) = or_false _ _ h in
    let (h2, r2) = or_false _ _ r1 in
    let (h3, r3) = or_false _ _ r2 in
    let (h4, r4) = or_false _ _ r3 in
    let (h5, r5) = or_false _ _ r4 in
    let (h6, r6) = or_false _ _ r5 in
    let (h7, r7) = or_false _ _ r6 in
    let (h8, h9) = or_false _ _ r7 in
    record {
      stop_id = eq_of_not-false _ _ h1;
      message = eq_of_not-false _ _ h2;
      order = eq_of_not-false _ _ h3;
      departure = eq_of_not-false _ _ h4;
      departure_delay = eq_of_not-false _ _ h5;
      departure_status = eq_of_not-false _ _ h6;
      arrival = eq_of_not-false _ _ h7;
      arrival_delay = eq_of_not-false _ _ h8;
      arrival_status = eq_of_not-false _ _ h9;
    }

-- The test is false exactly for stop times that agree in all nine columns.
pub is_not_equal_iff : (a b : StopTimeUpdate) → (is_not_equal a b ≡ false) ↔ SameColumns a b
unfolding is_not_equal
is_not_equal_iff a b = (
  is_not_equal-SameColumns a b,
  λ s. or_false_intro (not_eq_of_eq _ _ s.stop_id) (
      or_false_intro (not_eq_of_eq _ _ s.message) (
        or_false_intro (not_eq_of_eq _ _ s.order) (
          or_false_intro (not_eq_of_eq _ _ s.departure) (
            or_false_intro (not_eq_of_eq _ _ s.departure_delay) (
              or_false_intro (not_eq_of_eq _ _ s.departure_status) (
                or_false_intro (not_eq_of_eq _ _ s.arrival) (
                  or_false_intro (not_eq_of_eq _ _ s.arrival_delay)
                    (not_eq_of_eq _ _ s.arrival_status)))))))),
)
