-- ===== src/Cots/Headsigns.antt =====
-- kirin/cots/model_maker.py: `headsigns`, the numbers of a train from one text. Texts are those of
-- the library, by their characters.
use kirin.Prelude.{
  ℕ, zero, suc, ◌-◌, nat_beq, String, Option, none, some, List, [], ◌∷◌, if◌then◌else◌,
}
use Prim.Native.Char.{code}
use Prim.Native.String.{◌++◌ as str_append}

-- "0" and "/".
abbrev pub zero_code : ℕ
zero_code = 48

abbrev pub slash_code : ℕ
slash_code = 47

-- `s.lstrip("0")`
unfoldable pub lstrip_zeros : String → String
lstrip_zeros String.[] = ""
lstrip_zeros (String.◌∷◌ c s) =
    let rest = lstrip_zeros s in if nat_beq (code c) zero_code then rest else String.◌∷◌ c s

-- `s.split("/", 1)`, if there is a "/".
unfoldable pub split_at_slash : String → Option (String × String)
split_at_slash String.[] = none
split_at_slash (String.◌∷◌ c s) =
    let rest : Option (String × String) = elim (split_at_slash s) [
      | none ↦ none
      | some (a, b) ↦ some (String.◌∷◌ c a, b)
    ] in
    if nat_beq (code c) slash_code then some ("", s) else rest

abbrev pub text_length : String → ℕ
text_length String.[] = 0
text_length (String.◌∷◌ c s) = suc (text_length s)

-- The first characters.
unfoldable pub text_take : ℕ → String → String
text_take zero s = ""
text_take (suc n) String.[] = ""
text_take (suc n) (String.◌∷◌ c s) = String.◌∷◌ c (text_take n s)

-- `s[:-n]`: all but the last characters, where `-0` is 0 and not the end.
unfoldable pub slice_to_minus : ℕ → String → String
unfolding text_take
slice_to_minus zero s = ""
slice_to_minus (suc n) s = text_take (text_length s - suc n) s

unfoldable pub headsigns_of : String → Option (String × String) → List String
unfolding slice_to_minus
headsigns_of h none = h ∷ []
headsigns_of h (some (first, parity)) =
    first ∷ str_append (slice_to_minus (text_length parity) first) parity ∷ []

unfoldable pub headsigns : String → List String
unfolding headsigns_of lstrip_zeros split_at_slash
headsigns str_headsign = let h = lstrip_zeros str_headsign in headsigns_of h (split_at_slash h)
