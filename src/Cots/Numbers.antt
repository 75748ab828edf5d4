-- ===== src/Cots/Numbers.antt =====
-- The numbers that `headsigns` (kirin/cots/model_maker.py) reads in the text of a train.
use kirin.Prelude.{
  ℕ, zero, suc, ◌+◌, ◌-◌, ◌≤◌, ◌<◌, nat_beq, leb, Bool-cases, String, Option, none, some, List, [],
  ◌∷◌, ◌≡◌, ◌≢◌, refl, sym, ap, ◌∙◌, arith, ◌⊎◌, inl, inr,
}
use Prim.Native.Char.{Char, code}
use Prim.Native.String.{◌++◌ as str_append}
use text.Mathlib.TextLemmas.{nil-append, cons-append}
use kirin.Cots.Headsigns.{
  lstrip_zeros, split_at_slash, text_length, text_take, slice_to_minus, headsigns_of, headsigns,
}

-- Only "0", no "/", and not "0" at the start.
abbrev pub AllZeros : String → Type 0
AllZeros String.[] = Unit
AllZeros (String.◌∷◌ c s) = (code c ≡ 48) × AllZeros s

abbrev pub NoSlash : String → Type 0
NoSlash String.[] = Unit
NoSlash (String.◌∷◌ c s) = (code c ≢ 47) × NoSlash s

abbrev pub IsStripped : String → Type 0
IsStripped String.[] = Unit
IsStripped (String.◌∷◌ c s) = code c ≢ 48

-- The second number: the first one with its last characters replaced by the parity, or the parity alone
-- if it is the longer one; empty if the parity is.
abbrev pub IsSecond : String → String → String → Type 0
IsSecond first parity second =
    ((text_length parity ≡ 0) × (second ≡ ""))
    ⊎ (((text_length first < text_length parity) × (second ≡ parity))
        ⊎ ((0 < text_length parity)
            × (kept : String) × (replaced : String) × (first ≡ str_append kept replaced)
            × (text_length replaced ≡ text_length parity)
            × (second ≡ str_append kept parity)))

-- The numbers of a text without zeros at the start: itself, or the text before the first "/" and a
-- second one.
abbrev pub SplitNumbers : String → List String → Type 0
SplitNumbers h l =
    (NoSlash h × (l ≡ h ∷ []))
    ⊎ ((first : String) × (slash : Char) × (parity : String) × (second : String) × (code slash ≡ 47)
        × NoSlash first
        × (h ≡ str_append first (String.◌∷◌ slash parity))
        × (l ≡ first ∷ second ∷ [])
        × IsSecond first parity second)

abbrev pub Numbers : String → List String → Type 0
Numbers str_headsign l =
    (zeros : String) × (h : String) × (str_headsign ≡ str_append zeros h)
    × AllZeros zeros
    × IsStripped h
    × SplitNumbers h l

abbrev Stripped : String → String → Type 0
Stripped s h = (zeros : String) × (s ≡ str_append zeros h) × AllZeros zeros × IsStripped h

lstrip_zeros-Stripped : (s : String) → Stripped s (lstrip_zeros s)
unfolding lstrip_zeros
lstrip_zeros-Stripped String.[] = ("", sym (nil-append ""), tt, tt)
lstrip_zeros-Stripped (String.◌∷◌ c s) = elim (Bool-cases (nat_beq (code c) 48)) [
  | inl e ↦
      let (zeros, q, a, h) = lstrip_zeros-Stripped s in
      rw e (
        String.◌∷◌ c zeros,
        ap (String.◌∷◌ c) q ∙ sym (cons-append c zeros (lstrip_zeros s)),
        (ground arith, a),
        h,
      )
  | inr e ↦ rw e ("", sym (nil-append (String.◌∷◌ c s)), tt, (λ q. ground arith))
]

-- What stands before and after the first "/".
abbrev Split : String → Option (String × String) → Type 0
Split h none = NoSlash h
Split h (some (first, parity)) =
    (slash : Char) × (code slash ≡ 47)
    × NoSlash first
    × (h ≡ str_append first (String.◌∷◌ slash parity))

abbrev put_first : Char → Option (String × String) → Option (String × String)
put_first c none = none
put_first c (some (a, b)) = some (String.◌∷◌ c a, b)

Split-cons :
    (c : Char) (s : String) (o : Option (String × String))
    → code c ≢ 47
    → Split s o
    → Split (String.◌∷◌ c s) (put_first c o)
Split-cons c s none n h = (n, h)
Split-cons c s (some (a, b)) n (slash, e, f, q) =
    (slash, e, (n, f), ap (String.◌∷◌ c) q ∙ sym (cons-append c a (String.◌∷◌ slash b)))

split_at_slash-Split : (s : String) → Split s (split_at_slash s)
unfolding split_at_slash
split_at_slash-Split String.[] = tt
split_at_slash-Split (String.◌∷◌ c s) = elim (Bool-cases (nat_beq (code c) 47)) [
  | inl e ↦ rw e (c, ground arith, tt, sym (nil-append (String.◌∷◌ c s)))
  | inr e ↦ rw e (Split-cons c s (split_at_slash s) (λ q. ground arith) (split_at_slash-Split s))
]

-- The first characters and the others.
text_take-rest :
    (n : ℕ) (s : String)
    → n ≤ text_length s
    → (rest : String) × (s ≡ str_append (text_take n s) rest)
      × (text_length rest + n ≡ text_length s)
unfolding text_take
text_take-rest zero s h = (s, sym (nil-append s), omega arith)
text_take-rest (suc n) String.[] h = absurd (omega arith)
text_take-rest (suc n) (String.◌∷◌ c s) h =
    let (rest, q, e) = text_take-rest n s (omega arith) in
    (rest, ap (String.◌∷◌ c) q ∙ sym (cons-append c (text_take n s) rest), omega arith)

text_length-cases : (s : String) → (text_length s ≡ 0) ⊎ ((n : ℕ) × (text_length s ≡ suc n))
text_length-cases String.[] = inl refl
text_length-cases (String.◌∷◌ c s) = inr (text_length s, refl)

empty_text : (s : String) → text_length s ≡ 0 → s ≡ ""
empty_text String.[] h = refl
empty_text (String.◌∷◌ c s) h = absurd (omega arith)

slice_to_minus-IsSecond :
    (first parity : String)
    → IsSecond first parity (str_append (slice_to_minus (text_length parity) first) parity)
unfolding slice_to_minus text_take
slice_to_minus-IsSecond first parity = elim (text_length-cases parity) [
  | inl e ↦ inl (e, rw e (nil-append parity ∙ empty_text parity e))
  | inr (n, e) ↦ elim (Bool-cases (leb (text_length parity) (text_length first))) [
    | inl b ↦
        let (rest, q, k) = text_take-rest (text_length first - suc n) first (omega arith) in
        inr (
          inr (
            omega arith,
            text_take (text_length first - suc n) first,
            rest,
            q,
            ground arith,
            rw e refl,
          ))
    | inr b ↦
        let z : text_length first - suc n ≡ 0 = ground arith in
        inr (inl (ground arith, rw (e, z) (nil-append parity)))
  ]
]

headsigns_of-SplitNumbers :
    (h : String) (o : Option (String × String)) → Split h o → SplitNumbers h (headsigns_of h o)
unfolding headsigns_of
headsigns_of-SplitNumbers h none k = inl (k, refl)
headsigns_of-SplitNumbers h (some (first, parity)) (slash, e, f, q) = inr (
  first,
  slash,
  parity,
  str_append (slice_to_minus (text_length parity) first) parity,
  e,
  f,
  q,
  refl,
  slice_to_minus-IsSecond first parity,
)

-- The numbers of a train: its text is zeros and then a text that does not start with one. If that has no
-- "/", it is the only number. Otherwise there are two: the first is what stands before the first "/",
-- and the second is the first with as many of its last characters replaced by the parity, which stands
-- after that "/"; it is the parity alone if that is longer, and empty if the parity is.
pub headsigns-Numbers : (str_headsign : String) → Numbers str_headsign (headsigns str_headsign)
unfolding headsigns
headsigns-Numbers str_headsign =
    let h = lstrip_zeros str_headsign in
    let (zeros, q, a, s) = lstrip_zeros-Stripped str_headsign in
    (zeros, h, q, a, s, headsigns_of-SplitNumbers h (split_at_slash h) (split_at_slash-Split h))
