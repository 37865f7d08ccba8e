-- ===== src/Fetch/Branches/Links.antt =====
-- What `get_new_nonactive_headers_by_hash` of src/node/shared_fetch.rs loads.
use reorg_playground.Prelude.{
  ℕ, zero, suc, ◌+◌, ◌-◌, ◌≤◌, ◌<◌, ◌≡◌, refl, ap, ◌⊎◌, inl, inr, Bool, true, false, ltb, ltb→lt,
  List, [], ◌∷◌, ◌++◌, arith, subst, some, Bool-cases, Option-cases, ok, Result-cases, ok_eq,
}
use reorg_playground.External.Bitcoin.{Header, Bitcoin}
use reorg_playground.Types.{HeaderInfo, TreeInfo}
use reorg_playground.Types.Tips.{ChainTip}
use reorg_playground.Node.{Action, HeaderLocator}
use reorg_playground.Fetch.{make_header_info, send_progress_batch, tree_contains_hash}
use reorg_playground.Fetch.Ranges.{concat, progress-concat}
use reorg_playground.Fetch.Batches.{two_parts}
use reorg_playground.Fetch.Branches.{
  branch_loop, nonactive_loop, nonactive_tips, get_new_nonactive_headers_by_hash,
}

module _ {W G : Type 0} ⦃bitcoin : Bitcoin⦄ (tree : W → TreeInfo G)
    (block_header : HeaderLocator → Action W Header) (first_tracked_height : ℕ) where
  -- A list of at most `n` headers, each the answer to the hash that the one before it names as its predecessor,
  -- that goes on until the tree has the next one or the next one is not tracked.
  abbrev pub IsBranch : ℕ → ℕ → ℕ → List HeaderInfo → Type 0
  IsBranch n next_hash height [] =
      (n ≡ 0)
      ⊎ ((height < first_tracked_height) ⊎ ((w : W) × (tree_contains_hash tree w next_hash ≡ true)))
  IsBranch zero next_hash height (h ∷ hs) = ⊥
  IsBranch (suc n) next_hash height (h ∷ hs) =
      (first_tracked_height ≤ height)
      × ((w : W) × (tree_contains_hash tree w next_hash ≡ false)
          × ((block_header (HeaderLocator.hash next_hash) w).0 ≡ ok h.header))
      × (h ≡ make_header_info height h.header)
      × IsBranch n h.header.prev_blockhash (height - 1) hs

  -- A branch for each tip, which starts at the tip
  abbrev pub AreBranches : List ChainTip → List (List HeaderInfo) → Type 0
  AreBranches [] [] = Unit
  AreBranches [] (b ∷ bs) = ⊥
  AreBranches (tip ∷ tips) [] = ⊥
  AreBranches (tip ∷ tips) (b ∷ bs) =
      ((tip_hash : ℕ) × (bitcoin.from_str tip.hash ≡ some tip_hash)
        × IsBranch (tip.branchlen + 1) tip_hash tip.height b)
      × AreBranches tips bs

  branch_loop_lem :
      (tip_height i n next_hash : ℕ) (w : W) (headers : List HeaderInfo)
      → (branch_loop tree block_header first_tracked_height tip_height i n next_hash w).0
        ≡ ok headers
      → IsBranch n next_hash (tip_height - i) headers
  unfolding branch_loop
  branch_loop_lem tip_height i zero next w headers =
      λ e. subst (IsBranch zero next (tip_height - i)) (ok_eq e) (inl refl)
  branch_loop_lem tip_height i (suc n) next w headers =
      elim (Bool-cases (ltb (tip_height - i) first_tracked_height)) [
        | inl below ↦
            rw (below, branch_loop)
              (λ e.
                subst (IsBranch (suc n) next (tip_height - i)) (ok_eq e)
                  (inr (inl (ltb→lt (tip_height - i) first_tracked_height below))))
        | inr tracked ↦ elim (Bool-cases (tree_contains_hash tree w next)) [
          | inl known ↦
              rw (tracked, known, branch_loop)
                (λ e.
                  subst (IsBranch (suc n) next (tip_height - i)) (ok_eq e) (inr (inr (w, known))))
          | inr new ↦
              let (result, w') = block_header (HeaderLocator.hash next) w in
              elim (Result-cases (block_header (HeaderLocator.hash next) w).0) [
                | inl (x, failed) ↦ rw (tracked, new, failed, branch_loop) (λ e. absurd (cc))
                | inr (header, answer) ↦
                    let rest =
                      branch_loop tree block_header first_tracked_height tip_height (i + 1) n
                        header.prev_blockhash w' in
                    elim (Result-cases rest.0) [
                      | inl (x, failed) ↦
                          rw (tracked, new, answer, failed, branch_loop) (λ e. absurd (cc))
                      | inr (hs, loaded) ↦
                          let later : IsBranch n header.prev_blockhash (tip_height - i - 1) hs =
                            subst (λ h. IsBranch n header.prev_blockhash h hs) (omega arith)
                              (branch_loop_lem tip_height (i + 1) n header.prev_blockhash w' hs
                                loaded) in
                          rw (tracked, new, answer, loaded, branch_loop)
                            (λ e.
                              subst (IsBranch (suc n) next (tip_height - i)) (ok_eq e)
                                (ground arith, (w, new, answer), refl, later))
                    ]
              ]
        ]
      ]

  -- What is known of the headers of `tips` and of the batches `sent`.
  abbrev AreLoaded : Bool → List ChainTip → List HeaderInfo → List (List HeaderInfo) → Type 0
  AreLoaded listening tips headers sent =
      ((branches : List (List HeaderInfo)) × (concat branches ≡ headers)
        × AreBranches tips branches)
      × (listening ≡ true → concat sent ≡ headers)

  nonactive_loop_lem :
      (listening : Bool) (tips : List ChainTip) (w : W) (headers : List HeaderInfo)
      → let (result, _, sent) =
          nonactive_loop tree block_header first_tracked_height listening tips w in
        result ≡ ok headers → AreLoaded listening tips headers sent
  unfolding nonactive_loop
  nonactive_loop_lem listening [] w headers =
      λ e. subst (λ l. AreLoaded listening [] l []) (ok_eq e) (([], refl, tt), λ _. refl)
  nonactive_loop_lem listening (tip ∷ tips) w headers =
      elim (Option-cases (bitcoin.from_str tip.hash)) [
        | inl unread ↦ rw (unread, nonactive_loop) (λ e. absurd (cc))
        | inr (tip_hash, read) ↦
            let branch =
              branch_loop tree block_header first_tracked_height tip.height 0 (tip.branchlen + 1)
                tip_hash w in
            elim (Result-cases branch.0) [
              | inl (x, failed) ↦ rw (read, failed, nonactive_loop) (λ e. absurd (cc))
              | inr (hs, loaded) ↦
                  let others =
                    nonactive_loop tree block_header first_tracked_height listening tips branch.1 in
                  elim (Result-cases others.0) [
                    | inl (x, failed) ↦ rw (read, loaded, failed, nonactive_loop) (λ e. absurd (cc))
                    | inr (rest, done) ↦
                        let ((bs, all, known), all_sent) =
                          nonactive_loop_lem listening tips branch.1 rest done in
                        let here : IsBranch (tip.branchlen + 1) tip_hash tip.height hs =
                          subst (λ h. IsBranch (tip.branchlen + 1) tip_hash h hs) (omega arith)
                            (branch_loop_lem tip.height 0 (tip.branchlen + 1) tip_hash w hs
                              loaded) in
                        let sent = send_progress_batch listening hs in
                        rw (read, loaded, done, nonactive_loop)
                          (λ e.
                            subst (λ l. AreLoaded listening (tip ∷ tips) l (sent ++ others.2))
                              (ok_eq e)
                              (
                                (hs ∷ bs, ap (λ l. hs ++ l) all, ((tip_hash, read, here), known)),
                                λ on.
                                    two_parts sent others.2 hs rest
                                      (progress-concat listening [] hs on) (all_sent on),
                              ))
                  ]
            ]
      ]

  -- Where the fetch succeeds, the headers are one branch after the other, a branch for each tip that is not
  -- active and reaches the tracked range: from the tip down, each header is what the node gave for the
  -- predecessor of the one before, one height lower (0 stays 0), none is below the first tracked height, the tree had
  -- none of them when it was loaded, and a branch ends only after `branchlen + 1` headers, below the first
  -- tracked height or at a header that the tree had. If there is a progress channel, the batches sent hold
  -- exactly these headers, in this order.
  pub get_new_nonactive_headers_by_hash_lem :
      (tips : List ChainTip) (listening : Bool) (w : W) (headers : List HeaderInfo)
      → let (result, _, sent) =
          get_new_nonactive_headers_by_hash tree block_header tips first_tracked_height listening
            w in
        result ≡ ok headers
        → ((branches : List (List HeaderInfo)) × (concat branches ≡ headers)
            × AreBranches (nonactive_tips tree tips first_tracked_height) branches)
          × (listening ≡ true → concat sent ≡ headers)
  unfolding get_new_nonactive_headers_by_hash
  get_new_nonactive_headers_by_hash_lem tips listening w headers e =
      nonactive_loop_lem listening (nonactive_tips tree tips first_tracked_height) w headers e
