-- ===== src/Prelude/Parsing.antt =====
-- `rsplit_once` and `parse::<u16>()` of Rust's `str`.
use Prim.Native.Nat.{ℕ, ◌+◌, ◌*◌, ◌-◌}
use Prim.Native.Char.{code}
use Prim.Native.String.{String}
use mathlib.Core.Bool.{◌&&◌}
use mathlib.Core.Option.{Option, none, some}
use reorg_playground.Prelude.Tests.{if◌then◌else◌, leb, ltb, ◌==◌}

-- `s.rsplit_once(c)`, for the code of the character `c`
abbrev pub rsplit_once : ℕ → String → Option (String × String)
rsplit_once c String.[] = none
rsplit_once c (String.◌∷◌ d s) = elim (rsplit_once c s) [
  | some (before, after) ↦ some (String.◌∷◌ d before, after)
  | none ↦ if code d == c then some ("", s) else none
]

abbrev digits_value : ℕ → String → Option ℕ
digits_value value String.[] = some value
digits_value value (String.◌∷◌ c s) =
    let rest = digits_value (value * 10 + (code c - 48)) s in
    if leb 48 (code c) && leb (code c) 57 then rest else none

-- At least one digit, and a value below 2^16
abbrev u16_of_digits : String → Option ℕ
u16_of_digits String.[] = none
u16_of_digits (String.◌∷◌ c s) = elim (digits_value 0 (String.◌∷◌ c s)) [
  | none ↦ none
  | some value ↦ if ltb value 65536 then some value else none
]

-- `s.parse::<u16>().ok()`; a sign `+` may stand before the digits.
abbrev pub parse_u16 : String → Option ℕ
parse_u16 String.[] = none
parse_u16 (String.◌∷◌ c s) =
    if code c == 43 then u16_of_digits s else u16_of_digits (String.◌∷◌ c s)
