-- ===== src/Prelude/Maps.antt =====
-- `HashMap` and `BTreeMap` as association lists over numeric keys, the key's first entry counting.
use Prim.Native.Nat.{ℕ}
use mathlib.Core.Path.{◌≡◌, refl, ap}
use mathlib.Core.Logic.{inl, inr}
use mathlib.Core.Bool.{Bool, true, false}
use mathlib.Core.List.{List, [], ◌∷◌, ◌++◌}
use mathlib.Core.Option.{Option, none, some}
use native.Mathlib.Omega.{arith}
use reorg_playground.Prelude.Tests.{ltb, Bool-cases, if◌then◌else◌, ◌==◌}

abbrev pub Map {ℓ} : Type ℓ → Type ℓ
Map V = List (ℕ × V)

module _ {ℓ} {V : Type ℓ} where
  -- `map.get(&k)`
  abbrev pub get : ℕ → Map V → Option V
  get k [] = none
  get k ((j, v) ∷ m) = if j == k then some v else get k m

  -- `map.contains_key(&k)`
  abbrev pub contains_key : ℕ → Map V → Bool
  contains_key k m = elim (get k m) [ none ↦ false | some _ ↦ true ]

  -- `map.insert(k, v)`
  abbrev pub insert : ℕ → V → Map V → Map V
  insert k v [] = (k, v) ∷ []
  insert k v ((j, w) ∷ m) = if j == k then (k, v) ∷ m else (j, w) ∷ insert k v m

  -- `map.insert(k, v)` of a `BTreeMap`, which keeps the keys in ascending order
  abbrev pub insert_ordered : ℕ → V → Map V → Map V
  insert_ordered k v [] = (k, v) ∷ []
  insert_ordered k v ((j, w) ∷ m) =
      if ltb k j
      then (k, v) ∷ (j, w) ∷ m
      else if k == j
      then (k, v) ∷ m
      else (j, w) ∷ insert_ordered k v m

  -- `map.entry(k).and_modify(f)`
  abbrev pub modify : ℕ → (V → V) → Map V → Map V
  modify k f [] = []
  modify k f ((j, w) ∷ m) = if j == k then (j, f w) ∷ m else (j, w) ∷ modify k f m

  -- `map.values()`
  abbrev pub values : Map V → List V
  values [] = []
  values ((j, v) ∷ m) = v ∷ values m

  pub get-insert :
      (k j : ℕ) (v : V) (m : Map V) → get j (insert k v m) ≡ (if k == j then some v else get j m)
  get-insert k j v [] = refl
  get-insert k j v ((i, w) ∷ m) = ground (arith, get-insert k j v m)

-- `modify` changes the value of its key alone.
pub get-modify_other {ℓ} :
    {V : Type ℓ} (k j : ℕ) (f : V → V) (m : Map V)
    → (k == j) ≡ false
    → get j (modify k f m) ≡ get j m
get-modify_other k j f [] h = refl
get-modify_other k j f ((i, w) ∷ m) h = ground (arith, get-modify_other k j f m)

pub get-modify_self {ℓ} :
    {V : Type ℓ} (k : ℕ) (f : V → V) (m : Map V) (v : V)
    → get k m ≡ some v
    → get k (modify k f m) ≡ some (f v)
get-modify_self k f [] v h = absurd (cc)
get-modify_self k f ((i, w) ∷ m) v h = elim (Bool-cases (i == k)) [
  | inl here ↦ let e : w ≡ v = some_value (rw here at h) in rw (here, here) (ap (λ x. some (f x)) e)
  | inr there ↦ rw (there, there) (get-modify_self k f m v (rw there at h))
]
  where
    some_value : {V : Type ℓ} {a b : V} → ◌≡◌ {A = Option V} (some a) (some b) → a ≡ b
    some_value e = cc

-- `map.entry(k).or_default().push(v)`
abbrev pub push_entry : ℕ → ℕ → Map (List ℕ) → Map (List ℕ)
push_entry k v [] = (k, v ∷ []) ∷ []
push_entry k v ((j, w) ∷ m) = if j == k then (j, w ++ v ∷ []) ∷ m else (j, w) ∷ push_entry k v m
