-- ===== src/Prelude/Unicode.antt =====
-- What the program asks of Rust's `str`: `trim`, `to_lowercase`, `contains`, `replace`, `strip_prefix` and the
-- decimal text of a number.
use Prim.Native.Nat.{ℕ, zero, suc, ◌+◌, ◌-◌, ◌/◌, ◌%◌}
use Prim.Native.Char.{Char, code}
use Prim.Native.String.{String, char_at, slice, len, find, ◌++◌}
use text.Mathlib.Text.{starts_with, ◌==◌ as str_eq}
use mathlib.Core.Bool.{Bool, ◌&&◌, ◌||◌}
use mathlib.Core.Option.{Option, none, some}
use reorg_playground.Prelude.Tests.{if◌then◌else◌, leb, ltb, ◌==◌}

-- Only A to Z are changed. Rust changes other letters too, but none of them into a letter of a word that the
-- program looks for: the Kelvin sign becomes k, which is in none, and the dotted I becomes i with a
-- mark behind it.
abbrev pub lower_char : Char → Char
lower_char c =
    if leb 65 (code c) && leb (code c) 90
    then char_at "abcdefghijklmnopqrstuvwxyz" (code c - 65)
    else c

abbrev pub to_lowercase : String → String
to_lowercase String.[] = ""
to_lowercase (String.◌∷◌ c s) = String.◌∷◌ (lower_char c) (to_lowercase s)

-- `char::is_whitespace`: the property White_Space
abbrev pub is_whitespace : Char → Bool
is_whitespace c =
    let n = code c in
    (leb 9 n && leb n 13)
    || (n == 32 || n == 133 || n == 160 || n == 5760)
    || (leb 8192 n && leb n 8202)
    || (n == 8232 || n == 8233 || n == 8239 || n == 8287 || n == 12288)

abbrev trim_start : String → String
trim_start String.[] = ""
trim_start (String.◌∷◌ c s) = if is_whitespace c then trim_start s else String.◌∷◌ c s

abbrev trim_end : String → String
trim_end String.[] = ""
trim_end (String.◌∷◌ c s) =
    let rest = trim_end s in if is_whitespace c && str_eq rest "" then "" else String.◌∷◌ c rest

abbrev pub trim : String → String
trim s = trim_end (trim_start s)

-- `s.contains(t)`
abbrev pub contains : String → String → Bool
contains s t = leb (find s t) (len s)

-- `s.replace(p, "")` for a test `p` of characters
abbrev pub remove_chars : (Char → Bool) → String → String
remove_chars p String.[] = ""
remove_chars p (String.◌∷◌ c s) = if p c then remove_chars p s else String.◌∷◌ c (remove_chars p s)

abbrev pub strip_prefix : String → String → Option String
strip_prefix s p = if starts_with s p then some (slice s (len p) (len s)) else none

abbrev decimal : ℕ → ℕ → String
decimal zero n = ""
decimal (suc fuel) n =
    let last_digit = slice "0123456789" (n % 10) (n % 10 + 1) in
    let rest = decimal fuel (n / 10) in if ltb n 10 then last_digit else rest ++ last_digit

-- `n.to_string()`; a number has not more digits than its value plus one.
abbrev pub show_number : ℕ → String
show_number n = decimal (suc n) n
