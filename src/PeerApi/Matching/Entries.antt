-- ===== src/PeerApi/Matching/Entries.antt =====
-- Properties of the entries of the tables of `PeerNodeMatcher` (src/peer_api.rs), and how an entry is added.
use Prim.Native.String.{String}
use text.Mathlib.Text.{◌==◌ as str_eq}
use text.Mathlib.TextEquality.{eq_iff}
use reorg_playground.Prelude.{
  ℕ, ◌≡◌, inl, inr, ◌==◌, ==_iff, some, some_eq, Map, get, insert, get-insert, TextMap, get_text,
  insert_text, get_text-insert_text, Bool-cases,
}

-- The entries of a map have a property.
abbrev pub Entries : {V : Type 0} → (ℕ → V → Type 0) → Map V → Type 0
Entries {V} P m = (k : ℕ) (v : V) → get k m ≡ some v → P k v

abbrev pub TextEntries : {V : Type 0} → (String → V → Type 0) → TextMap V → Type 0
TextEntries {V} P m = (k : String) (v : V) → get_text k m ≡ some v → P k v

pub Entries-insert :
    {V : Type 0} (P : ℕ → V → Type 0) (k : ℕ) (v : V) (m : Map V)
    → Entries P m
    → P k v
    → Entries P (insert k v m)
Entries-insert P k v m all new j w e = elim (Bool-cases (k == j)) [
  | inl same ↦
      let kj = (==_iff k j).0 same in
      let vw : v ≡ w = some_eq (rw (get-insert k j v m, same) at e) in rw (← kj, ← vw) new
  | inr other ↦ all j w (rw (get-insert k j v m, other) at e)
]

pub TextEntries-insert :
    {V : Type 0} (P : String → V → Type 0) (k : String) (v : V) (m : TextMap V)
    → TextEntries P m
    → P k v
    → TextEntries P (insert_text k v m)
TextEntries-insert P k v m all new j w e = elim (Bool-cases (str_eq k j)) [
  | inl same ↦
      let kj = (eq_iff k j).0 same in
      let vw : v ≡ w = some_eq (rw (get_text-insert_text k j v m, same) at e) in rw (← kj, ← vw) new
  | inr other ↦ all j w (rw (get_text-insert_text k j v m, other) at e)
]
