-- ===== src/Fetch/ByHeight.antt =====
-- `get_new_active_headers_by_height` of src/node/shared_fetch.rs: what it loads.
use reorg_playground.Prelude.{
  append-nil, append_assoc, ℕ, zero, suc, ◌+◌, ◌-◌, ◌≤◌, ◌≡◌, refl, sym, ap, ◌∙◌, ◌⊎◌, inl, inr,
  Bool, true, false, ◌&&◌, leb, List, [], ◌∷◌, ◌++◌, arith, All, All-sort_by_key, subst, length,
  range, sort_by_key, Bool-cases, ok, Result-cases, ok_eq,
}
use reorg_playground.External.Bitcoin.{Header, Bitcoin}
use reorg_playground.Types.{HeaderInfo, TreeInfo}
use reorg_playground.Types.Tips.{ChainTip}
use reorg_playground.Node.{Action, HeaderLocator}
use reorg_playground.Fetch.{
  make_header_info, find_active_tip, tree_contains_hash, by_height_loop,
  get_new_active_headers_by_height, rpc_progress_batch_size,
}
use reorg_playground.Fetch.Ranges.{
  down, concat, heights, pair_eq, concat-append, heights-sort, sort-down, progress-concat,
}

module _ {W G : Type 0} ⦃bitcoin : Bitcoin⦄ (tree : W → TreeInfo G)
    (block_header : HeaderLocator → Action W Header) where
  -- The header was given for its height by the node, and the tree did not have it then.
  abbrev pub IsNewAt : HeaderInfo → Type 0
  IsNewAt h =
      (before : W) × (after : W) × (block_header (HeaderLocator.height h.height) before
        ≡ (ok h.header, after))
      × (tree_contains_hash tree after (bitcoin.block_hash h.header) ≡ false)

  -- The node gave a header for the height, and the tree has it.
  abbrev pub IsKnownAt : ℕ → W → Type 0
  IsKnownAt height after =
      (before : W) × (header : Header) × (block_header (HeaderLocator.height height) before
        ≡ (ok header, after))
      × (tree_contains_hash tree after (bitcoin.block_hash header) ≡ true)

  -- What the loop has done at its end: `added` are the headers that it loaded, down to `first + k`.
  record Walked (listening : Bool) (first n : ℕ) (headers batch headers' batch' : List HeaderInfo)
      (after : W) (sent : List (List HeaderInfo)) : Type 0 where
    pub added : List HeaderInfo
    pub k : ℕ
    pub below : k ≤ n
    pub headers_eq : headers' ≡ headers ++ added
    pub heights_eq : heights added ≡ down (first + k) (n - k)
    pub new : All IsNewAt added
    pub all_sent : listening ≡ true → concat sent ++ batch' ≡ batch ++ added
    pub stops : (k ≡ 0) ⊎ ((j : ℕ) × (k ≡ suc j) × IsKnownAt (first + j) after)

  -- One more header in front of what the rest of the loop adds; `pre` is sent before the rest runs.
  extend :
      (listening : Bool) (first n : ℕ) (headers batch headers' batch' : List HeaderInfo) (after : W)
      (sent pre : List (List HeaderInfo)) (batch_left : List HeaderInfo) (header : Header)
      → concat pre ++ batch_left ≡ batch ++ make_header_info (first + n) header ∷ []
      → IsNewAt (make_header_info (first + n) header)
      → Walked listening first n
          (headers ++ make_header_info (first + n) header ∷ [])
          batch_left
          headers'
          batch'
          after
          sent
      → Walked listening first (suc n) headers batch headers' batch' after (pre ++ sent)
  extend listening first n headers batch headers' batch' after sent pre batch_left header split new
        rest =
      let info = make_header_info (first + n) header in
      let below = rest.below in
      let count_eq : suc n - rest.k ≡ suc (n - rest.k) = omega arith in
      let at : first + rest.k + (n - rest.k) ≡ first + n = omega arith in
      record {
        added = info ∷ rest.added;
        k = rest.k;
        below = omega arith;
        headers_eq = rest.headers_eq ∙ append_assoc headers (info ∷ []) rest.added;
        heights_eq =
            ap (λ l. (first + n) ∷ l) rest.heights_eq
            ∙ ap (λ m. m ∷ down (first + rest.k) (n - rest.k)) (sym at)
            ∙ ap (λ m. down (first + rest.k) m) (sym count_eq);
        new = (new, rest.new);
        all_sent = λ on.
            concat-append pre sent batch'
            ∙ ap (λ l. concat pre ++ l) (rest.all_sent on)
            ∙ sym (append_assoc (concat pre) batch_left rest.added)
            ∙ ap (λ l. l ++ rest.added) split
            ∙ append_assoc batch (info ∷ []) rest.added;
        stops = rest.stops;
      }

  by_height_loop_lem :
      (listening : Bool) (first n : ℕ) (headers batch headers' batch' : List HeaderInfo) (w : W)
      → (by_height_loop tree block_header listening first n headers batch w).0
        ≡ ok (headers', batch')
      → Walked listening first n headers batch headers' batch'
          (by_height_loop tree block_header listening first n headers batch w).1
          (by_height_loop tree block_header listening first n headers batch w).2
  unfolding by_height_loop
  by_height_loop_lem listening first zero headers batch headers' batch' w e =
      let same = ok_eq e in
      let hs : headers ≡ headers' = ap (λ p. p.0) same in
      let bs : batch ≡ batch' = ap (λ p. p.1) same in
      record {
        added = [];
        k = 0;
        below = omega arith;
        headers_eq = sym hs ∙ sym (append-nil headers);
        heights_eq = refl;
        new = tt;
        all_sent = λ _. sym bs ∙ sym (append-nil batch);
        stops = inl refl;
      }
  by_height_loop_lem listening first (suc n) headers batch headers' batch' w e =
      elim (Result-cases (block_header (HeaderLocator.height (first + n)) w).0) [
        | inl (x, failed) ↦ absurd (cc (rw (failed, by_height_loop) at e))
        | inr (header, given) ↦
            elim (Bool-cases (
              tree_contains_hash tree (block_header (HeaderLocator.height (first + n)) w).1
                (bitcoin.block_hash header))) [
                  | inl known ↦
                      rw (given, known, by_height_loop)
                        (at_known headers batch headers' batch' header given known
                          (ok_eq (rw (given, known, by_height_loop) at e)))
                  | inr fresh ↦
                      let info = make_header_info (first + n) header in
                      let after = (block_header (HeaderLocator.height (first + n)) w).1 in
                      let new : IsNewAt info = (w, after, pair_eq given, fresh) in
                      elim (Bool-cases
                        (leb rpc_progress_batch_size (length (batch ++ info ∷ [])) && listening)) [
                          | inl full ↦
                              rw (given, fresh, full, by_height_loop)
                                (extend listening first n headers batch headers' batch' _ _
                                  ((batch ++ info ∷ []) ∷ []) [] header
                                  (append-nil _ ∙ append-nil _) new
                                  (by_height_loop_lem listening first n (headers ++ info ∷ []) []
                                    headers' batch' after
                                    (rw (given, fresh, full, by_height_loop) at e)))
                          | inr room ↦
                              rw (given, fresh, room, by_height_loop)
                                (extend listening first n headers batch headers' batch' _ _ []
                                  (batch ++ info ∷ []) header refl new
                                  (by_height_loop_lem listening first n (headers ++ info ∷ [])
                                    (batch ++ info ∷ []) headers' batch' after
                                    (rw (given, fresh, room, by_height_loop) at e)))
                        ]
                ]
      ]
    where
      at_known :
          (headers batch headers' batch' : List HeaderInfo) (header : Header)
          → (block_header (HeaderLocator.height (first + n)) w).0 ≡ ok header
          → tree_contains_hash tree
              (block_header (HeaderLocator.height (first + n)) w).1
              (bitcoin.block_hash header)
            ≡ true
          → ◌≡◌ {A = List HeaderInfo × List HeaderInfo} (headers, batch) (headers', batch')
          → Walked listening first
              (suc n)
              headers
              batch
              headers'
              batch'
              (block_header (HeaderLocator.height (first + n)) w).1
              []
      at_known headers batch headers' batch' header given known same =
          let hs : headers ≡ headers' = ap (λ p. p.0) same in
          let bs : batch ≡ batch' = ap (λ p. p.1) same in
          record {
            added = [];
            k = suc n;
            below = omega arith;
            headers_eq = sym hs ∙ sym (append-nil headers);
            heights_eq = let z : suc n - suc n ≡ 0 = omega arith in rw z refl;
            new = tt;
            all_sent = λ _. sym bs ∙ sym (append-nil batch);
            stops = inr (n, refl, (w, header, pair_eq given, known));
          }

  -- A fetch by height that succeeds gives the headers of all heights from some `start` to the active tip, one
  -- for each height and in ascending order. The tree had none of them when it was loaded. The fetch stopped
  -- at the first tracked height, or because the tree has the node's header at the height before `start`. If
  -- there is a progress channel, the batches sent hold exactly these headers.
  pub get_new_active_headers_by_height_lem :
      (tips : List ChainTip) (first : ℕ) (listening : Bool) (w : W) (tip : ChainTip)
      (headers : List HeaderInfo)
      → find_active_tip tips ≡ ok tip
      → (get_new_active_headers_by_height tree block_header tips first listening w).0 ≡ ok headers
      → let (_, after, sent) =
          get_new_active_headers_by_height tree block_header tips first listening w in
        (k : ℕ) × (heights headers ≡ range (first + k) (tip.height + 1 - first - k))
        × All IsNewAt headers
        × ((k ≡ 0) ⊎ ((j : ℕ) × (k ≡ suc j) × IsKnownAt (first + j) after))
        × (listening ≡ true → sort_by_key (λ h. h.height) (concat sent) ≡ headers)
  unfolding get_new_active_headers_by_height
  get_new_active_headers_by_height_lem tips first listening w tip headers active e =
      let n = tip.height + 1 - first in
      let loop = by_height_loop tree block_header listening first n [] [] w in
      elim (Result-cases loop.0) [
        | inl (x, failed) ↦ absurd (cc (rw (active, failed, get_new_active_headers_by_height) at e))
        | inr (done, walked_to) ↦
            let walked = by_height_loop_lem listening first n [] [] done.0 done.1 w walked_to in
            let sorted : sort_by_key (λ h. h.height) done.0 ≡ headers =
              ok_eq (rw (active, walked_to, get_new_active_headers_by_height) at e) in
            let added_eq : sort_by_key (λ h. h.height) walked.added ≡ headers =
              ap (λ l. sort_by_key (λ h. h.height) l) (sym walked.headers_eq) ∙ sorted in
            rw (active, walked_to, get_new_active_headers_by_height)
              (
                walked.k,
                ap heights (sym added_eq)
                    ∙ heights-sort walked.added
                    ∙ ap (λ l. sort_by_key (λ n. n) l) walked.heights_eq
                    ∙ sort-down (first + walked.k) (n - walked.k),
                subst (All IsNewAt) added_eq
                    (All-sort_by_key (λ h. h.height) IsNewAt walked.added walked.new),
                walked.stops,
                λ on.
                    ap (λ l. sort_by_key (λ h. h.height) l)
                      (progress-concat listening loop.2 done.1 on ∙ walked.all_sent on)
                    ∙ added_eq,
              )
      ]
