-- ===== src/HeaderTree/Index.antt =====
-- The hash index of src/headertree.rs: it lists exactly the nodes of the graph, under their hashes.
use reorg_playground.Prelude.{
  ℕ, ◌≡◌, sym, ◌∙◌, ◌⊎◌, inl, inr, none, some, List, [], ◌∷◌, ◌++◌, Map, get, insert, get-insert,
  length, get_elem?, arith, get_elem?-concat_lt, get_elem?-concat_self, lt-length_of_get_elem?,
  concat-cases,
}
use reorg_playground.External.Bitcoin.{Bitcoin}
use reorg_playground.Types.{HeaderInfo}
use reorg_playground.HeaderTree.{hash_of}

module _ ⦃bitcoin : Bitcoin⦄ where
  pub record IsIndexOf (nodes : List HeaderInfo) (index : Map ℕ) : Type 0 where
    pub nodes_indexed :
        (i : ℕ) (h : HeaderInfo) → get_elem? nodes i ≡ some h → get (hash_of h) index ≡ some i
    pub index_sound :
        (k i : ℕ)
        → get k index ≡ some i
        → (h : HeaderInfo) × (get_elem? nodes i ≡ some h) × (hash_of h ≡ k)

  -- Block `c` names block `p` as its predecessor.
  abbrev pub Link : List HeaderInfo → Map ℕ → ℕ → ℕ → Type 0
  Link nodes index p c =
      (h : HeaderInfo) × (get_elem? nodes c ≡ some h) × (get h.header.prev_blockhash index ≡ some p)

  -- A hash that is not listed belongs to no node, so entries of old nodes stay.
  pub get-insert_old :
      (k k' n i : ℕ) (index : Map ℕ)
      → get k index ≡ none
      → get k' index ≡ some i
      → get k' (insert k n index) ≡ some i
  get-insert_old k k' n i index fresh e = ground (arith, get-insert k k' n index)

  pub get-insert_cases :
      (k k' n i : ℕ) (index : Map ℕ)
      → get k' (insert k n index) ≡ some i
      → ((k ≡ k') × (n ≡ i)) ⊎ (get k' index ≡ some i)
  get-insert_cases k k' n i index e = ground (arith, get-insert k k' n index)

  pub get-insert_self : (k n : ℕ) (index : Map ℕ) → get k (insert k n index) ≡ some n
  get-insert_self k n index = ground (arith, get-insert k k n index)

  pub IsIndexOf-add :
      (nodes : List HeaderInfo) (index : Map ℕ) (h : HeaderInfo)
      → IsIndexOf nodes index
      → get (hash_of h) index ≡ none
      → IsIndexOf (nodes ++ h ∷ []) (insert (hash_of h) (length nodes) index)
  IsIndexOf-add nodes index h inv fresh = record {
    nodes_indexed = λ i h' e. elim (concat-cases nodes h h' i e) [
      | inl old ↦ get-insert_old _ _ _ _ index fresh (inv.nodes_indexed i h' old)
      | inr (last, same) ↦ rw (last, same) (get-insert_self (hash_of h) (length nodes) index)
    ];
    index_sound = λ k i e. elim (get-insert_cases (hash_of h) k (length nodes) i index e) [
      | inl (same, last) ↦ (h, rw (← last) (get_elem?-concat_self nodes h), same)
      | inr old ↦
          let (h', at, same) = inv.index_sound k i old in
          (h', get_elem?-concat_lt nodes h i (lt-length_of_get_elem? nodes i at) ∙ at, same)
    ];
  }

  -- Among old nodes a longer tree has the links that it had.
  pub Link-add :
      (nodes : List HeaderInfo) (index : Map ℕ) (h : HeaderInfo) (p c : ℕ)
      → get (hash_of h) index ≡ none
      → Link nodes index p c
      → Link (nodes ++ h ∷ []) (insert (hash_of h) (length nodes) index) p c
  Link-add nodes index h p c fresh (h', at, to) = (
    h',
    get_elem?-concat_lt nodes h c (lt-length_of_get_elem? nodes c at) ∙ at,
    get-insert_old _ _ _ _ index fresh to,
  )

  -- A link that is new has the new node at one of its ends.
  pub Link-cases :
      (nodes : List HeaderInfo) (index : Map ℕ) (h : HeaderInfo) (p c : ℕ)
      → Link (nodes ++ h ∷ []) (insert (hash_of h) (length nodes) index) p c
      → Link nodes index p c ⊎ ((p ≡ length nodes) ⊎ (c ≡ length nodes))
  Link-cases nodes index h p c (h', at, to) = elim (concat-cases nodes h h' c at) [
    | inr (last, _) ↦ inr (inr last)
    | inl old ↦ elim (get-insert_cases (hash_of h) _ (length nodes) p index to) [
      | inl (_, last) ↦ inr (inl (sym last))
      | inr listed ↦ inl (h', old, listed)
    ]
  ]
