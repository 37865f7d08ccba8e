-- ===== src/Fetch/Repair/Hashes.antt =====
-- How often a hash occurs among loaded headers (src/node/shared_fetch.rs).
use reorg_playground.Prelude.{
  ℕ, ◌+◌, ◌≤◌, ◌≡◌, refl, ap, ◌∙◌, inl, inr, false, ◌==◌, List, [], ◌∷◌, ◌++◌, arith, sort_by_key,
  insert_sorted, count, count-any_by, ==_iff, Bool-cases, Result, ok, err,
}
use reorg_playground.External.Bitcoin.{Bitcoin}
use reorg_playground.Types.{HeaderInfo}
use reorg_playground.Node.Errors.{FetchError}
use reorg_playground.Fetch.{hashes_of}
use reorg_playground.Fetch.Repair.{is_loaded, Ancestors}

abbrev found : Result FetchError (List HeaderInfo) → List HeaderInfo
found (ok headers) = headers
found (err _) = []

module _ ⦃bitcoin : Bitcoin⦄ where
  count-hashes_insert :
      (a : ℕ) (h : HeaderInfo) (hs : List HeaderInfo)
      → count a (hashes_of (insert_sorted (λ h. h.height) h hs)) ≡ count a (hashes_of (h ∷ hs))
  count-hashes_insert a h [] = refl
  count-hashes_insert a h (x ∷ hs) = ground (arith, count-hashes_insert a h hs)

  pub count-hashes_sort :
      (a : ℕ) (hs : List HeaderInfo)
      → count a (hashes_of (sort_by_key (λ h. h.height) hs)) ≡ count a (hashes_of hs)
  count-hashes_sort a [] = refl
  count-hashes_sort a (h ∷ hs) =
      ground
        (arith, count-hashes_insert a h (sort_by_key (λ h. h.height) hs), count-hashes_sort a hs)

  pub hashes_of-append :
      (xs ys : List HeaderInfo) → hashes_of (xs ++ ys) ≡ hashes_of xs ++ hashes_of ys
  hashes_of-append [] ys = refl
  hashes_of-append (x ∷ xs) ys = ap (λ l. bitcoin.block_hash x.header ∷ l) (hashes_of-append xs ys)

  -- The new headers come on top of the loaded ones, and none of all these twice.
  abbrev IsFresh : ℕ → List ℕ → List HeaderInfo → List ℕ → Type 0
  IsFresh a loaded headers loaded' =
      (count a loaded + count a (hashes_of headers) ≤ count a loaded') × (count a loaded' ≤ 1)

  abbrev pub AreFresh : {W : Type 0} → ℕ → List ℕ → Ancestors W → Type 0
  AreFresh a loaded (r, w, loaded') = IsFresh a loaded (found r) loaded'

pub added :
    (a hash : ℕ) (loaded new loaded' : List ℕ)
    → count a (hash ∷ loaded) + count a new ≤ count a loaded'
    → count a loaded + count a (hash ∷ new) ≤ count a loaded'
added a hash loaded new loaded' le = ground arith

pub one_more :
    (a hash : ℕ) (loaded : List ℕ)
    → is_loaded hash loaded ≡ false
    → count a loaded ≤ 1
    → count a (hash ∷ loaded) ≤ 1
one_more a hash loaded unseen once =
    let none_yet = count-any_by hash loaded unseen in
    elim (Bool-cases (a == hash)) [
      | inl same ↦
          let e : a ≡ hash = (==_iff a hash).0 same in
          let zero_times : count a loaded ≡ 0 = ap (λ x. count x loaded) e ∙ none_yet in
          rw same (omega arith)
      | inr other ↦ rw other once
    ]
