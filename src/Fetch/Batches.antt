-- ===== src/Fetch/Batches.antt =====
-- `get_new_active_headers_as_batch` of src/node/shared_fetch.rs: it ends, and what it loads.
use reorg_playground.Prelude.{
  append-nil, ℕ, zero, suc, ◌+◌, ◌-◌, ◌≤◌, ◌<◌, max, ◌≡◌, ◌↔◌, refl, sym, ap, ◌∙◌, inl, inr, Bool,
  true, leb, Option, some, List, [], ◌∷◌, ◌++◌, arith, All, All-elems, Any, Any-get_elem?,
  Any-sort_by_key, IsSortedBy, sort_by_key-IsSortedBy, sort_by_key, is_empty, Bool-cases, ok, err,
  Result-cases, ok_eq, subst, not_both,
}
use reorg_playground.External.Bitcoin.{Header, Bitcoin}
use reorg_playground.Types.{HeaderInfo, TreeInfo}
use reorg_playground.Types.Tips.{ChainTip}
use reorg_playground.Node.{Action}
use reorg_playground.Fetch.{
  find_active_tip, send_progress_batch, Fetched, active_batch_step,
  collect_unknown_active_batch_headers, batch_loop, get_new_active_headers_as_batch,
}
use reorg_playground.Fetch.Asks.{
  Ask, AreAsked, IsNewOf, collect_lem, last_batch, one_more, asked_low,
}
use reorg_playground.Fetch.Ranges.{concat, concat-append, progress-concat}

pub two_parts :
    {A : Type 0} (xss yss : List (List A)) (xs ys : List A)
    → concat xss ≡ xs
    → concat yss ≡ ys
    → concat (xss ++ yss) ≡ xs ++ ys
two_parts xss yss xs ys e f =
    sym (append-nil _)
    ∙ concat-append xss yss []
    ∙ ap (λ l. concat xss ++ l) (append-nil _)
    ∙ ap (λ l. l ++ concat yss) e
    ∙ ap (λ l. xs ++ l) f

iff_trans : {A B C : Type 0} → A ↔ B → B ↔ C → A ↔ C
iff_trans (f, g) (h, k) = (λ a. h (f a), λ c. g (k c))

module _ {W G : Type 0} ⦃bitcoin : Bitcoin⦄ (tree : W → TreeInfo G) where
  -- The headers are those of the batches that the tree did not have, and where there is a progress channel, what is
  -- sent holds exactly them.
  abbrev pub IsBatched :
      (ℕ → ℕ → Action W (List Header))
      → Bool
      → ℕ
      → ℕ
      → W
      → List HeaderInfo
      → W
      → List (List HeaderInfo)
      → Type 0
  IsBatched batch listening first next w headers w' sent =
      ((asks : List (Ask tree)) × AreAsked tree batch first next w asks w'
        × ((h : HeaderInfo) → Any (λ x. x ≡ h) headers ↔ Any (IsNewOf tree h) asks))
      × (listening ≡ true → concat sent ≡ headers)

  abbrev Answers :
      (ℕ → ℕ → Action W (List Header))
      → Bool
      → ℕ
      → ℕ
      → W
      → Option (Fetched W (List HeaderInfo))
      → Type 0
  Answers batch listening first next w answer =
      (r : Fetched W (List HeaderInfo)) × (answer ≡ some r)
      × ((headers : List HeaderInfo)
          → r.0 ≡ ok headers
          → IsBatched batch listening first next w headers r.1 r.2)

  nothing_new :
      (start : ℕ) (headers : List Header) (w : W)
      → is_empty headers ≡ true
      → (h : HeaderInfo) → Any (λ x. x ≡ h) [] ↔ IsNewOf tree h (start, headers, w)
  nothing_new start [] w nothing h = (λ none. absurd none, λ (k, at, _, _, _). absurd (cc))
  nothing_new start (x ∷ headers) w nothing h = absurd (cc)

  batch_loop_lem :
      (batch_active_headers : ℕ → ℕ → Action W (List Header)) (listening : Bool)
      (first fuel next_height : ℕ) (w : W)
      → next_height < fuel
      → Answers batch_active_headers listening first next_height w
          (batch_loop tree batch_active_headers listening first fuel next_height w)
  unfolding batch_loop
  batch_loop_lem batch listening first zero next w enough = absurd (omega arith)
  batch_loop_lem batch listening first (suc fuel) next w enough =
      elim (Bool-cases (leb next first)) [
        | inl below ↦ (
          (ok [], w, []),
          rw (below, batch_loop) refl,
          λ hs e.
              subst (λ l. IsBatched batch listening first next w l w []) (ok_eq e)
                (([], (ground arith, refl), λ h. (λ none. none, λ none. none)), λ _. refl),
        )
        | inr above ↦
            let start = max first (next - active_batch_step) in
            let (result, w') = batch start active_batch_step w in
            elim (Result-cases (batch start active_batch_step w).0) [
              | inl (x, failed) ↦
                  ((err x, w', []), rw (above, failed, batch_loop) refl, λ hs e. absurd (cc))
              | inr (headers, given) ↦
                  let answered : batch start active_batch_step w ≡ (ok headers, w') =
                    ap (λ x. (x, w')) given in
                  elim (Bool-cases (is_empty headers)) [
                    | inl nothing ↦ (
                      (ok [], w', []),
                      rw (above, given, nothing, batch_loop) refl,
                      λ hs e.
                          subst (λ l. IsBatched batch listening first next w l w' []) (ok_eq e)
                            (
                              last_batch tree batch first next w w' headers [] (ground arith)
                                  answered (inl nothing) (nothing_new start headers w' nothing),
                              λ _. refl,
                            ),
                    )
                    | inr something ↦
                        let collected =
                          collect_unknown_active_batch_headers tree w' start headers in
                        let sent = send_progress_batch listening collected.0 in
                        let (only, knows) = collect_lem tree w' start headers in
                        elim (Bool-cases collected.1) [
                          | inl known ↦ (
                            (ok collected.0, w', sent),
                            rw (above, given, something, known, batch_loop) refl,
                            λ hs e.
                                subst (λ l. IsBatched batch listening first next w l w' sent)
                                  (ok_eq e)
                                  (
                                    last_batch tree batch first next w w' headers collected.0
                                        (ground arith) answered (inr (knows.0 known)) only,
                                    λ on. progress-concat listening [] collected.0 on,
                                  ),
                          )
                          | inr all_new ↦
                              let above' : first < next = ground arith in
                              let (r, looped, known) =
                                batch_loop_lem batch listening first fuel (next - active_batch_step)
                                  w' (omega arith) in
                              elim (Result-cases r.0) [
                                | inl (x, failed) ↦ (
                                  (err x, r.1, sent ++ r.2),
                                  rw (above, given, something, all_new, looped, failed, batch_loop)
                                      refl,
                                  λ hs e. absurd (cc),
                                )
                                | inr (rest, loaded) ↦
                                    let (rest_asked, rest_sent) = known rest loaded in
                                    (
                                      (ok (collected.0 ++ rest), r.1, sent ++ r.2),
                                      rw
                                          (
                                            above, given, something, all_new, looped, loaded,
                                            batch_loop,
                                          )
                                          refl,
                                      λ hs e.
                                          subst
                                            (λ l.
                                              IsBatched batch listening first next w l r.1
                                                (sent ++ r.2))
                                            (ok_eq e)
                                            (
                                              one_more tree batch first next w w' r.1 headers
                                                  collected.0 rest above' answered something
                                                  (λ some_known.
                                                    not_both (knows.1 some_known) all_new)
                                                  only rest_asked,
                                              λ on.
                                                  two_parts sent r.2 collected.0 rest
                                                    (progress-concat listening [] collected.0 on)
                                                    (rest_sent on),
                                            ),
                                    )
                              ]
                        ]
                  ]
            ]
      ]

  -- A fetch by batches always ends. Where it succeeds, there is an active tip, and from its height downwards batches
  -- of 2000 heights each were asked for, the lowest at the first tracked height, until one was empty or had a header
  -- that the tree had, or the first tracked height was reached. The headers are those of these batches that the tree
  -- did not have when the batch was answered, each at the height of its place in the batch and without a miner, in
  -- the order of their heights. None is below the first tracked height, and if there is a progress channel, the
  -- batches sent hold exactly these headers.
  pub get_new_active_headers_as_batch_lem :
      (batch_active_headers : ℕ → ℕ → Action W (List Header)) (tips : List ChainTip) (first : ℕ)
      (listening : Bool) (w : W)
      → (r : Fetched W (List HeaderInfo)) × (get_new_active_headers_as_batch tree
            batch_active_headers tips first listening w
          ≡ some r)
        × ((headers : List HeaderInfo)
            → r.0 ≡ ok headers
            → ((tip : ChainTip) × (asks : List (Ask tree)) × (find_active_tip tips ≡ ok tip)
                × AreAsked tree batch_active_headers first (tip.height + 1) w asks r.1
                × ((h : HeaderInfo) → Any (λ x. x ≡ h) headers ↔ Any (IsNewOf tree h) asks))
              × IsSortedBy (λ h. h.height) headers
              × All (λ h. first ≤ h.height) headers
              × (listening ≡ true → sort_by_key (λ h. h.height) (concat r.2) ≡ headers))
  unfolding get_new_active_headers_as_batch
  get_new_active_headers_as_batch_lem batch tips first listening w =
      elim (Result-cases (find_active_tip tips)) [
        | inl (x, no_tip) ↦
            ((err x, w, []), rw (no_tip, get_new_active_headers_as_batch) refl, λ hs e. absurd (cc))
        | inr (tip, active) ↦
            let (r, looped, known) =
              batch_loop_lem batch listening first (tip.height + 2) (tip.height + 1) w
                (omega arith) in
            elim (Result-cases r.0) [
              | inl (x, failed) ↦ (
                (err x, r.1, r.2),
                rw (active, looped, failed, get_new_active_headers_as_batch) refl,
                λ hs e. absurd (cc),
              )
              | inr (loaded, done) ↦
                  let ((asks, asked, only), all_sent) = known loaded done in
                  (
                    (ok (sort_by_key (λ h. h.height) loaded), r.1, r.2),
                    rw (active, looped, done, get_new_active_headers_as_batch) refl,
                    λ hs e.
                        let same = ok_eq e in
                        let read : (h : HeaderInfo)
                            → Any (λ x. x ≡ h) hs ↔ Any (IsNewOf tree h) asks =
                          λ h. rw (← same) (
                            iff_trans (Any-sort_by_key (λ x. x.height) (λ x. x ≡ h) loaded)
                              (only h)) in
                        (
                          (tip, asks, active, asked, read),
                          subst (IsSortedBy (λ h. h.height)) same
                              (sort_by_key-IsSortedBy (λ h. h.height) loaded),
                          All-elems _ hs (λ i h at.
                              asked_low tree batch first (tip.height + 1) w r.1 asks h asked
                                ((read h).0 (Any-get_elem? (λ x. x ≡ h) hs i h at refl))),
                          λ on. ap (λ l. sort_by_key (λ h. h.height) l) (all_sent on) ∙ same,
                        ),
                  )
            ]
      ]
