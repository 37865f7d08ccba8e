-- ===== src/Fetch/Asks.antt =====
-- The batches that `get_new_active_headers_as_batch` of src/node/shared_fetch.rs asks for, and the headers in them.
use reorg_playground.Prelude.{
  ℕ, zero, suc, ◌+◌, ◌-◌, ◌≤◌, ◌<◌, max, ◌≡◌, ◌↔◌, ◌⊎◌, refl, sym, ap, inl, inr, true, false, some,
  List, [], ◌∷◌, ◌++◌, arith, Any, Any-concat, is_empty, Bool-cases, ok, subst, get_elem?, some_eq,
  not_both,
}
use reorg_playground.External.Bitcoin.{Header, Bitcoin}
use reorg_playground.Types.{HeaderInfo, TreeInfo}
use reorg_playground.Node.{Action}
use reorg_playground.Fetch.{
  tree_contains_hash, collect_unknown_active_batch_headers, make_header_info,
}

module _ {W G : Type 0} ⦃bitcoin : Bitcoin⦄ (tree : W → TreeInfo G) where
  -- A batch that was answered: its first height, its headers, and the state after the call
  abbrev pub Ask : Type 0
  Ask = ℕ × List Header × W

  abbrev pub IsKnown : W → Header → Type 0
  IsKnown w header = tree_contains_hash tree w (bitcoin.block_hash header) ≡ true

  -- A header of the batch, at its height, that the tree did not have when the batch was answered
  abbrev pub IsNewOf : HeaderInfo → Ask → Type 0
  IsNewOf h (start, headers, w) =
      (k : ℕ) × (get_elem? headers k ≡ some h.header)
      × (h.height ≡ start + k)
      × (h.miner ≡ "")
      × (tree_contains_hash tree w (bitcoin.block_hash h.header) ≡ false)

  -- The batches that are asked for from `w` on, from the height below `next` downwards. The last one is empty or has
  -- a header that the tree has, or it reaches the first tracked height.
  abbrev pub AreAsked : (ℕ → ℕ → Action W (List Header)) → ℕ → ℕ → W → List Ask → W → Type 0
  AreAsked batch first next w [] w' = (next ≤ first) × (w' ≡ w)
  AreAsked batch first next w ((start, headers, u) ∷ asks) w' =
      (first < next)
      × (start ≡ max first (next - 2000))
      × (batch start 2000 w ≡ (ok headers, u))
      × (((is_empty headers ≡ true) ⊎ Any (IsKnown u) headers) × (asks ≡ []) × (w' ≡ u)
          ⊎ (is_empty headers ≡ false)
            × (¬ Any (IsKnown u) headers)
            × AreAsked batch first (next - 2000) u asks w')

  new_at_first :
      (h : HeaderInfo) (start : ℕ) (header : Header) (w : W)
      → h.header ≡ header
      → h.height ≡ start
      → h.miner ≡ ""
      → tree_contains_hash tree w (bitcoin.block_hash header) ≡ false
      → (headers : List Header) → IsNewOf h (start, header ∷ headers, w)
  new_at_first h start header w same at no_miner new headers =
      (0, ap some (sym same), omega (arith, at), no_miner, rw same new)

  new_later :
      (h : HeaderInfo) (start : ℕ) (header : Header) (headers : List Header) (w : W)
      → IsNewOf h (start + 1, headers, w)
      → IsNewOf h (start, header ∷ headers, w)
  new_later h start header headers w (k, at, height, no_miner, new) =
      (suc k, at, omega (arith, height), no_miner, new)

  new_cases :
      (h : HeaderInfo) (start : ℕ) (header : Header) (headers : List Header) (w : W)
      → IsNewOf h (start, header ∷ headers, w)
      → ((make_header_info start header ≡ h)
          × (tree_contains_hash tree w (bitcoin.block_hash header) ≡ false))
        ⊎ IsNewOf h (start + 1, headers, w)
  new_cases h start header headers w (zero, at, height, no_miner, new) =
      let same : header ≡ h.header = some_eq at in
      let low : start ≡ h.height = omega (arith, height) in
      inl (rw (same, low, ← no_miner) refl, rw same new)
  new_cases h start header headers w (suc k, at, height, no_miner, new) =
      inr (k, at, omega (arith, height), no_miner, new)

  pub collect_lem :
      (w : W) (start : ℕ) (hs : List Header)
      → let (batch_new, encountered) = collect_unknown_active_batch_headers tree w start hs in
        ((h : HeaderInfo) → Any (λ x. x ≡ h) batch_new ↔ IsNewOf h (start, hs, w))
        × ((encountered ≡ true) ↔ Any (IsKnown w) hs)
  unfolding collect_unknown_active_batch_headers
  collect_lem w start [] = (
    λ h. (λ none. absurd none, λ (k, at, _, _, _). absurd (cc)),
    (λ e. absurd (cc), λ none. absurd none),
  )
  collect_lem w start (header ∷ hs) =
      let (found, known) = collect_lem w (start + 1) hs in
      elim (Bool-cases (tree_contains_hash tree w (bitcoin.block_hash header))) [
        | inl has ↦
            rw (has, collect_unknown_active_batch_headers)
              (
                λ h. (
                  λ a. new_later h start header hs w ((found h).0 a),
                  λ new. elim (new_cases h start header hs w new) [
                    | inl (_, off) ↦ absurd (not_both has off)
                    | inr later ↦ (found h).1 later
                  ],
                ),
                (λ _. inl refl, λ _. refl),
              )
        | inr new ↦
            rw (new, collect_unknown_active_batch_headers)
              (
                λ h. (
                  λ a. elim a [
                    | inl here ↦
                        new_at_first h start header w (ap (λ x. x.header) (sym here))
                          (ap (λ x. x.height) (sym here)) (ap (λ x. x.miner) (sym here)) new hs
                    | inr later ↦ new_later h start header hs w ((found h).0 later)
                  ],
                  λ is_new. elim (new_cases h start header hs w is_new) [
                    | inl (here, _) ↦ inl here
                    | inr later ↦ inr ((found h).1 later)
                  ],
                ),
                (
                  λ e. inr (known.0 e),
                  λ a. elim a [ inl has ↦ absurd (cc) | inr later ↦ known.1 later ],
                ),
              )
      ]

  pub last_batch :
      (batch : ℕ → ℕ → Action W (List Header)) (first next : ℕ) (w u : W) (headers : List Header)
      (found : List HeaderInfo)
      → first < next
      → let start = max first (next - 2000) in
        batch start 2000 w ≡ (ok headers, u)
        → (is_empty headers ≡ true) ⊎ Any (IsKnown u) headers
        → ((h : HeaderInfo) → Any (λ x. x ≡ h) found ↔ IsNewOf h (start, headers, u))
        → (asks : List Ask) × AreAsked batch first next w asks u
          × ((h : HeaderInfo) → Any (λ x. x ≡ h) found ↔ Any (IsNewOf h) asks)
  last_batch batch first next w u headers found above given stops only = (
    (max first (next - 2000), headers, u) ∷ [],
    (above, refl, given, inl (stops, refl, refl)),
    λ h. (
      λ a. inl ((only h).0 a),
      λ a. elim a [ inl new ↦ (only h).1 new | inr none ↦ absurd none ],
    ),
  )

  pub one_more :
      (batch : ℕ → ℕ → Action W (List Header)) (first next : ℕ) (w u w' : W) (headers : List Header)
      (found rest : List HeaderInfo)
      → first < next
      → let start = max first (next - 2000) in
        batch start 2000 w ≡ (ok headers, u)
        → is_empty headers ≡ false
        → ¬ Any (IsKnown u) headers
        → ((h : HeaderInfo) → Any (λ x. x ≡ h) found ↔ IsNewOf h (start, headers, u))
        → ((asks : List Ask) × AreAsked batch first (next - 2000) u asks w'
            × ((h : HeaderInfo) → Any (λ x. x ≡ h) rest ↔ Any (IsNewOf h) asks))
        → (asks : List Ask) × AreAsked batch first next w asks w'
          × ((h : HeaderInfo) → Any (λ x. x ≡ h) (found ++ rest) ↔ Any (IsNewOf h) asks)
  one_more batch first next w u w' headers found rest above given some_h none_known only
        (asks, asked, others) =
      (
        (max first (next - 2000), headers, u) ∷ asks,
        (above, refl, given, inr (some_h, none_known, asked)),
        λ h.
            let (from, to) = Any-concat (λ x. x ≡ h) found rest in
            (
              λ a. elim (from a) [
                | inl here ↦ inl ((only h).0 here)
                | inr later ↦ inr ((others h).0 later)
              ],
              λ a. elim a [
                | inl here ↦ to (inl ((only h).1 here))
                | inr later ↦ to (inr ((others h).1 later))
              ],
            ),
      )

  -- Nothing is loaded below the first tracked height.
  pub asked_low :
      (batch : ℕ → ℕ → Action W (List Header)) (first next : ℕ) (w w' : W) (asks : List Ask)
      (h : HeaderInfo)
      → AreAsked batch first next w asks w'
      → Any (IsNewOf h) asks
      → first ≤ h.height
  asked_low batch first next w w' [] h asked none = absurd none
  asked_low batch first next w w' (ask ∷ asks) h (above, from, _, _) (inl (k, _, height, _, _)) =
      omega (arith, from, height)
  asked_low batch first next w w' (ask ∷ asks) h (_, _, given, inl (_, last, _)) (inr later) =
      absurd (subst (λ l. Any (IsNewOf h) l) last later)
  asked_low batch first next w w' (ask ∷ asks) h (_, _, given, inr (_, _, asked)) (inr later) =
      asked_low batch first (next - 2000) ask.2 w' asks h asked later
