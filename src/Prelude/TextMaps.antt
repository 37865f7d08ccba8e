-- ===== src/Prelude/TextMaps.antt =====
-- `HashMap<String, V>` as an association list, the key's first entry counting.
use Prim.Native.String.{String}
use text.Mathlib.Text.{◌==◌}
use text.Mathlib.TextEquality.{eq_iff}
use mathlib.Core.Path.{◌≡◌, refl}
use mathlib.Core.List.{List, [], ◌∷◌}
use mathlib.Core.Option.{Option, none, some}
use native.Mathlib.Omega.{arith}
use reorg_playground.Prelude.Tests.{if◌then◌else◌}

abbrev pub TextMap {ℓ} : Type ℓ → Type ℓ
TextMap V = List (String × V)

module _ {ℓ} {V : Type ℓ} where
  -- `map.get(k)`
  abbrev pub get_text : String → TextMap V → Option V
  get_text k [] = none
  get_text k ((j, v) ∷ m) = if j == k then some v else get_text k m

  -- `map.insert(k, v)`
  abbrev pub insert_text : String → V → TextMap V → TextMap V
  insert_text k v [] = (k, v) ∷ []
  insert_text k v ((j, w) ∷ m) = if j == k then (k, v) ∷ m else (j, w) ∷ insert_text k v m

  pub get_text-insert_text :
      (k j : String) (v : V) (m : TextMap V)
      → get_text j (insert_text k v m) ≡ (if k == j then some v else get_text j m)
  get_text-insert_text k j v [] = refl
  get_text-insert_text k j v ((i, w) ∷ m) =
      ground (arith, eq_iff k j, eq_iff i k, eq_iff i j, get_text-insert_text k j v m)
