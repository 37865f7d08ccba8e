-- ===== src/HeaderTree/Children.antt =====
-- `children_by_prev` of src/headertree.rs lists each node under the hash of its predecessor.
use reorg_playground.Prelude.{
  ℕ, suc, zero, ◌+◌, ◌≤◌, ◌<◌, ◌≡◌, refl, ◌⊎◌, inl, inr, none, some, Option, List, [], ◌∷◌, ◌++◌,
  Map, get, get_elem?, arith, count, push_entry, ◌==◌, count-append, if◌then◌else◌,
}
use reorg_playground.Types.{HeaderInfo}
use reorg_playground.HeaderTree.{children_from}

-- The children listed for a hash.
abbrev pub listed : Option (List ℕ) → List ℕ
listed none = []
listed (some cs) = cs

abbrev pub children_of : ℕ → Map (List ℕ) → List ℕ
children_of k m = listed (get k m)

children_of-push_entry :
    (k j v : ℕ) (m : Map (List ℕ))
    → children_of k (push_entry j v m)
      ≡ (if j == k then children_of k m ++ v ∷ [] else children_of k m)
children_of-push_entry k j v [] = ground arith
children_of-push_entry k j v ((i, w) ∷ m) = ground (arith, children_of-push_entry k j v m)

-- What was listed stays, and each of the nodes from `i` on is listed under its predecessor's hash.
pub children_from_keeps :
    (k c i : ℕ) (nodes : List HeaderInfo) (acc : Map (List ℕ))
    → count c (children_of k acc) ≤ count c (children_of k (children_from i nodes acc))
unfolding children_from
children_from_keeps k c i [] acc = omega arith
children_from_keeps k c i (h ∷ nodes) acc = ground (
  arith,
  children_from_keeps k c (suc i) nodes (push_entry h.header.prev_blockhash i acc),
  children_of-push_entry k h.header.prev_blockhash i acc,
  count-append c (children_of k acc) (i ∷ []),
)

pub children_from_lists :
    (k c i : ℕ) (nodes : List HeaderInfo) (acc : Map (List ℕ)) {h : HeaderInfo}
    → get_elem? nodes c ≡ some h
    → h.header.prev_blockhash ≡ k
    → 0 < count (i + c) (children_of k (children_from i nodes acc))
unfolding children_from
children_from_lists k c i [] acc at same = cc
children_from_lists k zero i (h ∷ nodes) acc at same = ground (
  arith,
  children_from_keeps k (i + 0) (suc i) nodes (push_entry h.header.prev_blockhash i acc),
  children_of-push_entry k h.header.prev_blockhash i acc,
  count-append (i + 0) (children_of k acc) (i ∷ []),
)
children_from_lists k (suc c) i (h ∷ nodes) acc at same =
    let e : i + suc c ≡ suc i + c = omega arith in
    rw e (children_from_lists k c (suc i) nodes (push_entry h.header.prev_blockhash i acc) at same)

-- Only such nodes are listed.
abbrev pub Listed : ℕ → ℕ → ℕ → List HeaderInfo → Type 0
Listed k c i nodes =
    (j : ℕ) × (h : HeaderInfo) × (c ≡ i + j)
    × (get_elem? nodes j ≡ some h)
    × (h.header.prev_blockhash ≡ k)

push_entry_cases :
    (k j v c : ℕ) (m : Map (List ℕ))
    → 0 < count c (children_of k (push_entry j v m))
    → (0 < count c (children_of k m)) ⊎ ((j ≡ k) × (c ≡ v))
push_entry_cases k j v c m h =
    ground (arith, children_of-push_entry k j v m, count-append c (children_of k m) (v ∷ []))

pub children_from_sound :
    (k c i : ℕ) (nodes : List HeaderInfo) (acc : Map (List ℕ))
    → 0 < count c (children_of k (children_from i nodes acc))
    → (0 < count c (children_of k acc)) ⊎ Listed k c i nodes
unfolding children_from
children_from_sound k c i [] acc m = inl m
children_from_sound k c i (h ∷ nodes) acc m =
    elim (children_from_sound k c (suc i) nodes (push_entry h.header.prev_blockhash i acc) m) [
      | inr (j, h', e, at, same) ↦ inr (suc j, h', omega arith, at, same)
      | inl listed ↦ elim (push_entry_cases k h.header.prev_blockhash i c acc listed) [
        | inl before ↦ inl before
        | inr (same, e) ↦ inr (0, h, omega arith, refl, same)
      ]
    ]
