-- ===== src/Prelude/Texts.antt =====
-- `BTreeSet<String>`: an ascending list of texts, by the byte order that Rust uses too.
use Prim.Native.Nat.{Ordering}
use Prim.Native.String.{String, compare}
use mathlib.Core.List.{List, [], ◌∷◌}

-- `set.insert(x)`
abbrev pub add_text : String → List String → List String
add_text x [] = x ∷ []
add_text x (y ∷ ys) = elim (compare x y) [
  | Ordering.lt ↦ x ∷ y ∷ ys
  | Ordering.eq ↦ y ∷ ys
  | Ordering.gt ↦ y ∷ add_text x ys
]

-- `iter().collect::<BTreeSet<String>>()`
abbrev pub text_set : List String → List String
text_set [] = []
text_set (x ∷ xs) = add_text x (text_set xs)
