-- ===== src/Fetch/Repair/Sound.antt =====
-- What a repair (src/node/shared_fetch.rs) loads from a node that answers with blocks at their heights.
use reorg_playground.Prelude.{
  ℕ, zero, suc, ◌+◌, ◌-◌, ◌≡◌, sym, inl, inr, Bool-cases, ◌||◌, ◌==◌, List, [], ◌∷◌, arith, All,
  All-append, All-sort_by_key, All-get_elem?, subst, Bool, ◌<◌, Option-cases, Result, Result-cases,
  ok, err, ok_eq, sort_by_key,
}
use reorg_playground.External.Bitcoin.{Header, Bitcoin}
use reorg_playground.External.Petgraph.{DiGraph}
use reorg_playground.Types.{HeaderInfo, TreeInfo}
use reorg_playground.Types.Blocks.{AreBlocks, IsSound}
use reorg_playground.Node.{Action, HeaderLocator}
use reorg_playground.HeaderTree.{weight}
use reorg_playground.HeaderTree.Roots.{weights, unexpected_roots}
use reorg_playground.Fetch.{tree_contains_hash}
use reorg_playground.Fetch.Repair.{
  Ancestors, unless_unsupported, is_loaded, is_hash_unsupported, active_ancestors, branch_ancestors,
  ancestors_of, repair_roots, fetch_missing_headers_for_unexpected_roots,
}

-- A call leads from a state to one of the states after it, and answers with the block asked for.
pub record IsHonest {W : Type 0} ⦃bitcoin : Bitcoin⦄ (IsBlock : Header → Type 0)
    (block_height : Header → ℕ) (After : W → W → Type 0)
    (block_header : HeaderLocator → Action W Header) : Type 0 where
  pub after : (locator : HeaderLocator) (w : W) → After w (block_header locator w).1
  pub by_height :
      (h : ℕ) (w : W) (header : Header)
      → (block_header (HeaderLocator.height h) w).0 ≡ ok header
      → IsBlock header × (h ≡ block_height header)
  pub by_hash :
      (k : ℕ) (w : W) (header : Header)
      → (block_header (HeaderLocator.hash k) w).0 ≡ ok header
      → IsBlock header × (bitcoin.block_hash header ≡ k)

module _ {W G : Type 0} ⦃bitcoin : Bitcoin⦄ (tree : W → TreeInfo G) {IsBlock : Header → Type 0}
    {block_height : Header → ℕ} (blocks : AreBlocks IsBlock block_height) {After : W → W → Type 0}
    (stay : (w : W) → After w w) (join : (u v w : W) → After u v → After v w → After u w)
    (block_header : HeaderLocator → Action W Header)
    (honest : IsHonest IsBlock block_height After block_header) where
  -- A call that succeeds gives blocks at their heights.
  abbrev GivesBlocks : {E : Type 0} → Result E (List HeaderInfo) → Type 0
  GivesBlocks (ok headers) = All (IsSound IsBlock block_height) headers
  GivesBlocks (err e) = Unit

  abbrev Leads : W → Ancestors W → Type 0
  Leads w (result, w', _) = After w w' × GivesBlocks result

  active_ancestors_sound :
      (first n : ℕ) (loaded : List ℕ) (w : W)
      → Leads w (active_ancestors tree block_header first n loaded w)
  unfolding active_ancestors
  active_ancestors_sound first zero loaded w = (stay w, tt)
  active_ancestors_sound first (suc n) loaded w =
      let locator = HeaderLocator.height (first + n) in
      let w' = (block_header locator w).1 in
      let next = honest.after locator w in
      elim (Result-cases (block_header locator w).0) [
        | inl (x, failed) ↦ rw (failed, active_ancestors) (next, tt)
        | inr (header, given) ↦
            let hash = bitcoin.block_hash header in
            elim (Bool-cases (tree_contains_hash tree w' hash || is_loaded hash loaded)) [
              | inl known ↦ rw (given, known, active_ancestors) (next, tt)
              | inr new ↦
                  let rest = active_ancestors tree block_header first n (hash ∷ loaded) w' in
                  let (later, sound) = active_ancestors_sound first n (hash ∷ loaded) w' in
                  let all = join w w' rest.1 next later in
                  elim (Result-cases rest.0) [
                    | inl (x, failed) ↦ rw (given, new, failed, active_ancestors) (all, tt)
                    | inr (headers, found) ↦
                        rw (given, new, found, active_ancestors)
                          (all, (honest.by_height (first + n) w header given, rw found at sound))
                  ]
            ]
      ]

  -- The block below is one lower than the `n` heights above the first one tell.
  abbrev IsBelow : ℕ → ℕ → Type 0
  IsBelow top next_hash =
      (b : Header) → IsBlock b → bitcoin.block_hash b ≡ next_hash → suc (block_height b) ≡ top

  branch_ancestors_sound :
      (first n next_hash : ℕ) (loaded : List ℕ) (w : W)
      → (0 < n → IsBelow (first + n) next_hash)
      → Leads w (branch_ancestors tree block_header first n next_hash loaded w)
  unfolding branch_ancestors
  branch_ancestors_sound first zero next_hash loaded w below = (stay w, tt)
  branch_ancestors_sound first (suc n) next_hash loaded w below =
      let locator = HeaderLocator.hash next_hash in
      let w' = (block_header locator w).1 in
      let next = honest.after locator w in
      elim (Bool-cases (tree_contains_hash tree w next_hash || is_loaded next_hash loaded)) [
        | inl known ↦ rw (known, branch_ancestors) (stay w, tt)
        | inr open_end ↦ elim (Result-cases (block_header locator w).0) [
          | inl (x, failed) ↦ rw (open_end, failed, branch_ancestors) (next, tt)
          | inr (header, given) ↦
              let hash = bitcoin.block_hash header in
              let (block, named) = honest.by_hash next_hash w header given in
              let at : suc (block_height header) ≡ first + suc n =
                below (omega arith) header block named in
              elim (Bool-cases (is_loaded hash loaded)) [
                | inl seen ↦ rw (open_end, given, seen, branch_ancestors) (next, tt)
                | inr unseen ↦
                    let rest =
                      branch_ancestors tree block_header first n header.prev_blockhash
                        (hash ∷ loaded) w' in
                    let (later, sound) =
                      branch_ancestors_sound first n header.prev_blockhash (hash ∷ loaded) w'
                        (λ _ b is_b link.
                          let up = blocks.rises header b block is_b (sym link) in omega arith) in
                    let all = join w w' rest.1 next later in
                    elim (Result-cases rest.0) [
                      | inl (x, failed) ↦
                          rw (open_end, given, unseen, failed, branch_ancestors) (all, tt)
                      | inr (headers, found) ↦
                          let here : first + n ≡ block_height header = omega arith in
                          rw (open_end, given, unseen, found, branch_ancestors)
                            (all, ((block, here), rw found at sound))
                    ]
              ]
        ]
      ]

  unless_unsupported_sound :
      (w : W) (r : Ancestors W) → Leads w r → Leads w (unless_unsupported tree r)
  unless_unsupported_sound w (ok headers, w', loaded) leads = leads
  unless_unsupported_sound w (err e, w', loaded) leads =
      elim (Bool-cases (is_hash_unsupported tree e)) [
        | inl unsupported ↦ rw unsupported (leads.0, tt)
        | inr other ↦ rw other leads
      ]

  ancestors_of_sound :
      (first : ℕ) (root : HeaderInfo) (loaded : List ℕ) (w : W)
      → IsSound IsBlock block_height root
      → Leads w (ancestors_of tree block_header first root loaded w)
  unfolding ancestors_of
  ancestors_of_sound first root loaded w (is_root, height) =
      let locator = HeaderLocator.height root.height in
      let w' = (block_header locator w).1 in
      let next = honest.after locator w in
      let left = root.height - first in
      elim (Result-cases (block_header locator w).0) [
        | inl (x, failed) ↦ rw (failed, ancestors_of) (next, tt)
        | inr (header, given) ↦
            elim (Bool-cases (bitcoin.block_hash header == bitcoin.block_hash root.header)) [
              | inl active ↦
                  let (later, sound) = active_ancestors_sound first left loaded w' in
                  rw (given, active, ancestors_of) (join w w' _ next later, sound)
              | inr branch ↦
                  let (later, sound) = unless_unsupported_sound w' _ (
                    branch_ancestors_sound first left root.header.prev_blockhash loaded w'
                      (λ some_left b is_b link.
                        let up = blocks.rises root.header b is_root is_b (sym link) in
                        omega arith)) in
                  rw (given, branch, ancestors_of) (join w w' _ next later, sound)
            ]
      ]

  repair_roots_sound :
      (first : ℕ) (listening : Bool) (roots : List HeaderInfo) (loaded : List ℕ) (w : W)
      → All (IsSound IsBlock block_height) roots
      → let (result, w', _) = repair_roots tree block_header first listening roots loaded w in
        After w w' × GivesBlocks result
  unfolding repair_roots
  repair_roots_sound first listening [] loaded w all = (stay w, tt)
  repair_roots_sound first listening (root ∷ roots) loaded w (sound, all) =
      let result = ancestors_of tree block_header first root loaded w in
      let (next, given_sound) = ancestors_of_sound first root loaded w sound in
      elim (Result-cases result.0) [
        | inl (x, failed) ↦ rw (failed, repair_roots) (next, tt)
        | inr (found, given) ↦
            let rest = repair_roots tree block_header first listening roots result.2 result.1 in
            let (later, others) = repair_roots_sound first listening roots result.2 result.1 all in
            let run = join w result.1 rest.1 next later in
            elim (Result-cases rest.0) [
              | inl (x, failed) ↦ rw (given, failed, repair_roots) (run, tt)
              | inr (headers, done) ↦
                  rw (given, done, repair_roots)
                    (
                      run,
                      All-append _ (sort_by_key (λ h. h.height) found) headers
                          (All-sort_by_key (λ h. h.height) _ found (rw given at given_sound))
                          (rw done at others),
                    )
            ]
      ]

module _ {W G : Type 0} ⦃bitcoin : Bitcoin⦄ ⦃petgraph : DiGraph HeaderInfo G⦄
    (tree : W → TreeInfo G) {IsBlock : Header → Type 0} {block_height : Header → ℕ}
    (blocks : AreBlocks IsBlock block_height) {After : W → W → Type 0} (stay : (w : W) → After w w)
    (join : (u v w : W) → After u v → After v w → After u w)
    (block_header : HeaderLocator → Action W Header)
    (honest : IsHonest IsBlock block_height After block_header) where
  weights-IsSound :
      (t : TreeInfo G) (is : List ℕ)
      → All (IsSound IsBlock block_height) (petgraph.raw_nodes t.graph)
      → All (IsSound IsBlock block_height) (weights t is)
  unfolding weights
  weights-IsSound t [] all = tt
  weights-IsSound t (i ∷ is) all = elim (Option-cases (weight t i)) [
    | inl gone ↦ rw (gone, weights) (weights-IsSound t is all)
    | inr (n, at) ↦
        rw (at, weights)
          (All-get_elem? _ (petgraph.raw_nodes t.graph) i all at, weights-IsSound t is all)
  ]

  pub repair-IsSound :
      (first : ℕ) (listening : Bool) (w : W)
      → All (IsSound IsBlock block_height) (petgraph.raw_nodes (tree w).graph)
      → let (result, w', _) =
          fetch_missing_headers_for_unexpected_roots tree block_header first listening w in
        After w w'
        × ((headers : List HeaderInfo)
            → result ≡ ok headers
            → All (IsSound IsBlock block_height) headers)
  unfolding fetch_missing_headers_for_unexpected_roots unexpected_roots
  repair-IsSound first listening w all =
      let roots = unexpected_roots (tree w) first in
      let result = repair_roots tree block_header first listening roots [] w in
      let (run, sound) =
        repair_roots_sound tree blocks stay join block_header honest first listening roots [] w
          (All-sort_by_key (λ n. n.height) _ _ (weights-IsSound (tree w) _ all)) in
      elim (Result-cases result.0) [
        | inl (x, failed) ↦
            rw (failed, fetch_missing_headers_for_unexpected_roots) (run, λ headers e. absurd (cc))
        | inr (found, given) ↦
            rw (given, fetch_missing_headers_for_unexpected_roots)
              (
                run,
                λ headers e.
                    subst (All (IsSound IsBlock block_height)) (ok_eq e)
                      (All-sort_by_key (λ h. h.height) _ found (rw given at sound)),
              )
      ]
