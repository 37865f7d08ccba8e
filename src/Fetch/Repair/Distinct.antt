-- ===== src/Fetch/Repair/Distinct.antt =====
-- `fetch_missing_headers_for_unexpected_roots` of src/node/shared_fetch.rs: how often a header is loaded.
use reorg_playground.Prelude.{
  ℕ, zero, suc, ◌+◌, ◌-◌, ◌≤◌, ◌≡◌, refl, ap, ◌∙◌, inl, inr, Bool, true, false, ◌||◌, ◌==◌, List,
  [], ◌∷◌, ◌++◌, arith, IsSortedBy, sort_by_key-IsSortedBy, sort_by_key, count, count-append,
  Bool-cases, ok, err, Result-cases, ok_eq, subst,
}
use reorg_playground.External.Bitcoin.{Header, Bitcoin}
use reorg_playground.External.Petgraph.{DiGraph}
use reorg_playground.Types.{HeaderInfo, TreeInfo}
use reorg_playground.Node.{Action, HeaderLocator}
use reorg_playground.HeaderTree.Roots.{unexpected_roots}
use reorg_playground.Fetch.{send_progress_batch, tree_contains_hash, hashes_of}
use reorg_playground.Fetch.Ranges.{concat, progress-concat}
use reorg_playground.Fetch.Batches.{two_parts}
use reorg_playground.Fetch.Repair.{
  is_loaded, Ancestors, active_ancestors, branch_ancestors, is_hash_unsupported, unless_unsupported,
  ancestors_of, repair_roots, fetch_missing_headers_for_unexpected_roots,
}
use reorg_playground.Fetch.Repair.Hashes.{
  count-hashes_sort, hashes_of-append, AreFresh, added, one_more,
}

module _ {W G : Type 0} ⦃bitcoin : Bitcoin⦄ (tree : W → TreeInfo G)
    (block_header : HeaderLocator → Action W Header) where
  active_ancestors-fresh :
      (a first n : ℕ) (loaded : List ℕ) (w : W)
      → count a loaded ≤ 1
      → AreFresh a loaded (active_ancestors tree block_header first n loaded w)
  unfolding active_ancestors
  active_ancestors-fresh a first zero loaded w once = (omega arith, once)
  active_ancestors-fresh a first (suc n) loaded w once =
      elim (Result-cases (block_header (HeaderLocator.height (first + n)) w).0) [
        | inl (x, failed) ↦ rw (failed, active_ancestors) (omega arith, once)
        | inr (header, given) ↦
            let w' = (block_header (HeaderLocator.height (first + n)) w).1 in
            let hash = bitcoin.block_hash header in
            elim (Bool-cases (tree_contains_hash tree w' hash || is_loaded hash loaded)) [
              | inl known ↦ rw (given, known, active_ancestors) (omega arith, once)
              | inr new ↦
                  let unseen : is_loaded hash loaded ≡ false = ground arith in
                  let rest = active_ancestors tree block_header first n (hash ∷ loaded) w' in
                  let (more, all_once) =
                    active_ancestors-fresh a first n (hash ∷ loaded) w'
                      (one_more a hash loaded unseen once) in
                  elim (Result-cases rest.0) [
                    | inl (x, failed) ↦
                        rw (given, new, failed, active_ancestors) (ground arith, all_once)
                    | inr (headers, found') ↦
                        rw (given, new, found', active_ancestors)
                          (added a hash loaded (hashes_of headers) _ (rw found' at more), all_once)
                  ]
            ]
      ]

  branch_ancestors-fresh :
      (a first n next_hash : ℕ) (loaded : List ℕ) (w : W)
      → count a loaded ≤ 1
      → AreFresh a loaded (branch_ancestors tree block_header first n next_hash loaded w)
  unfolding branch_ancestors
  branch_ancestors-fresh a first zero next_hash loaded w once = (omega arith, once)
  branch_ancestors-fresh a first (suc n) next_hash loaded w once =
      elim (Bool-cases (tree_contains_hash tree w next_hash || is_loaded next_hash loaded)) [
        | inl known ↦ rw (known, branch_ancestors) (omega arith, once)
        | inr open_end ↦ elim (Result-cases (block_header (HeaderLocator.hash next_hash) w).0) [
          | inl (x, failed) ↦ rw (open_end, failed, branch_ancestors) (omega arith, once)
          | inr (header, given) ↦
              let w' = (block_header (HeaderLocator.hash next_hash) w).1 in
              let hash = bitcoin.block_hash header in
              elim (Bool-cases (is_loaded hash loaded)) [
                | inl seen ↦ rw (open_end, given, seen, branch_ancestors) (omega arith, once)
                | inr unseen ↦
                    let rest =
                      branch_ancestors tree block_header first n header.prev_blockhash
                        (hash ∷ loaded) w' in
                    let (more, all_once) =
                      branch_ancestors-fresh a first n header.prev_blockhash (hash ∷ loaded) w'
                        (one_more a hash loaded unseen once) in
                    elim (Result-cases rest.0) [
                      | inl (x, failed) ↦
                          rw (open_end, given, unseen, failed, branch_ancestors)
                            (ground arith, all_once)
                      | inr (headers, found') ↦
                          rw (open_end, given, unseen, found', branch_ancestors)
                            (
                              added a hash loaded (hashes_of headers) _ (rw found' at more),
                              all_once,
                            )
                    ]
              ]
        ]
      ]

  unless_unsupported-fresh :
      (a : ℕ) (loaded : List ℕ) (r : Ancestors W)
      → AreFresh a loaded r
      → AreFresh a loaded (unless_unsupported tree r)
  unless_unsupported-fresh a loaded (ok headers, w, loaded') fresh = fresh
  unless_unsupported-fresh a loaded (err e, w, loaded') fresh =
      elim (Bool-cases (is_hash_unsupported tree e)) [
        | inl unsupported ↦ rw unsupported fresh
        | inr other ↦ rw other fresh
      ]

  ancestors_of-fresh :
      (a first : ℕ) (root : HeaderInfo) (loaded : List ℕ) (w : W)
      → count a loaded ≤ 1
      → AreFresh a loaded (ancestors_of tree block_header first root loaded w)
  unfolding ancestors_of
  ancestors_of-fresh a first root loaded w once =
      elim (Result-cases (block_header (HeaderLocator.height root.height) w).0) [
        | inl (x, failed) ↦ rw (failed, ancestors_of) (omega arith, once)
        | inr (header, given) ↦
            let w' = (block_header (HeaderLocator.height root.height) w).1 in
            elim (Bool-cases (bitcoin.block_hash header == bitcoin.block_hash root.header)) [
              | inl active ↦
                  rw (given, active, ancestors_of)
                    (active_ancestors-fresh a first (root.height - first) loaded w' once)
              | inr branch ↦
                  rw (given, branch, ancestors_of)
                    (unless_unsupported-fresh a loaded
                      (branch_ancestors tree block_header first (root.height - first)
                        root.header.prev_blockhash loaded w')
                      (branch_ancestors-fresh a first (root.height - first)
                        root.header.prev_blockhash loaded w' once))
            ]
      ]

  repair_roots-fresh :
      (a first : ℕ) (listening : Bool) (roots : List HeaderInfo) (loaded : List ℕ) (w : W)
      (headers : List HeaderInfo)
      → count a loaded ≤ 1
      → (repair_roots tree block_header first listening roots loaded w).0 ≡ ok headers
      → (count a loaded + count a (hashes_of headers) ≤ 1)
        × (listening ≡ true
            → concat (repair_roots tree block_header first listening roots loaded w).2 ≡ headers)
  unfolding repair_roots
  repair_roots-fresh a first listening [] loaded w headers once e =
      subst (λ l. (count a loaded + count a (hashes_of l) ≤ 1) × (listening ≡ true → [] ≡ l))
        (ok_eq e) (omega arith, λ _. refl)
  repair_roots-fresh a first listening (root ∷ roots) loaded w headers once e =
      let result = ancestors_of tree block_header first root loaded w in
      let (more, all_once) = ancestors_of-fresh a first root loaded w once in
      elim (Result-cases result.0) [
        | inl (x, failed) ↦ absurd (cc (rw (failed, repair_roots) at e))
        | inr (found', given) ↦
            let rest = repair_roots tree block_header first listening roots result.2 result.1 in
            elim (Result-cases rest.0) [
              | inl (x, failed) ↦ absurd (cc (rw (given, failed, repair_roots) at e))
              | inr (others, done) ↦
                  let sorted = sort_by_key (λ h. h.height) found' in
                  let same : sorted ++ others ≡ headers =
                    ok_eq (rw (given, done, repair_roots) at e) in
                  let (once', all_sent) =
                    repair_roots-fresh a first listening roots result.2 result.1 others all_once
                      done in
                  let split =
                    ap (λ l. count a l) (hashes_of-append sorted others)
                    ∙ count-append a (hashes_of sorted) (hashes_of others) in
                  let kept = count-hashes_sort a found' in
                  let more' = rw given at more in
                  rw (given, done, repair_roots)
                    (
                      rw (← same) (omega arith),
                      λ on.
                          two_parts (send_progress_batch listening sorted) rest.2 sorted others
                            (progress-concat listening [] sorted on) (all_sent on)
                          ∙ same,
                    )
            ]
      ]

module _ {W G : Type 0} ⦃bitcoin : Bitcoin⦄ ⦃petgraph : DiGraph HeaderInfo G⦄
    (tree : W → TreeInfo G) (block_header : HeaderLocator → Action W Header) where
  -- A repair that succeeds gives the headers in the order of their heights, and none of them twice, however the
  -- subtrees overlap. If there is a progress channel, the batches sent hold exactly these headers.
  pub fetch_missing_headers_for_unexpected_roots_lem :
      (first : ℕ) (listening : Bool) (w : W) (headers : List HeaderInfo)
      → (fetch_missing_headers_for_unexpected_roots tree block_header first listening w).0
        ≡ ok headers
      → IsSortedBy (λ h. h.height) headers
        × ((hash : ℕ) → count hash (hashes_of headers) ≤ 1)
        × (listening ≡ true
            → sort_by_key
                (λ h. h.height)
                (concat
                  (fetch_missing_headers_for_unexpected_roots tree block_header first listening
                    w).2)
              ≡ headers)
  unfolding fetch_missing_headers_for_unexpected_roots
  fetch_missing_headers_for_unexpected_roots_lem first listening w headers e =
      let roots = unexpected_roots (tree w) first in
      let result = repair_roots tree block_header first listening roots [] w in
      elim (Result-cases result.0) [
        | inl (x, failed) ↦
            absurd (cc (rw (failed, fetch_missing_headers_for_unexpected_roots) at e))
        | inr (found', given) ↦
            let same : sort_by_key (λ h. h.height) found' ≡ headers =
              ok_eq (rw (given, fetch_missing_headers_for_unexpected_roots) at e) in
            let fresh : (hash : ℕ)
                → (count hash [] + count hash (hashes_of found') ≤ 1)
                  × (listening ≡ true → concat result.2 ≡ found') =
              λ hash.
                repair_roots-fresh tree block_header hash first listening roots [] w found'
                  (omega arith) given in
            rw (given, fetch_missing_headers_for_unexpected_roots)
              (
                subst (IsSortedBy (λ h. h.height)) same
                    (sort_by_key-IsSortedBy (λ h. h.height) found'),
                λ hash.
                    let kept = count-hashes_sort hash found' in
                    let (once, _) = fresh hash in rw (← same) (omega arith),
                λ on. ap (λ l. sort_by_key (λ h. h.height) l) ((fresh 0).1 on) ∙ same,
              )
      ]
