-- ===== src/Metrics/Common.antt =====
-- `resolved_tip_index` of src/metrics.rs: the last block that the paths to all active tips share.
use reorg_playground.Prelude.{
  some_eq, ℕ, ◌≡◌, refl, sym, ◌∙◌, ◌⊎◌, inl, inr, Option, none, some, List, [], ◌∷◌, arith,
  Option-cases, Bool-cases, All, is_empty, ◌==◌, Result, ok, err, ok_or, ◌>>=◌, ==_iff,
}
use reorg_playground.External.Petgraph.{DiGraph}
use reorg_playground.Types.{HeaderInfo, TreeInfo}
use reorg_playground.Types.Metrics.{MetricUnavailableReason, insufficient_history}
use reorg_playground.Metrics.{path_to_root, shared, common_from, resolve, last}
use reorg_playground.Metrics.Paths.{HeightsRise, path_to_root_lem}

abbrev pub Prefix : List ℕ → List ℕ → Type 0
Prefix [] ys = Unit
Prefix (x ∷ xs) [] = ⊥
Prefix (x ∷ xs) (y ∷ ys) = (x ≡ y) × Prefix xs ys

Prefix-refl : (xs : List ℕ) → Prefix xs xs
Prefix-refl [] = tt
Prefix-refl (x ∷ xs) = (refl, Prefix-refl xs)

Prefix-trans : (xs ys zs : List ℕ) → Prefix xs ys → Prefix ys zs → Prefix xs zs
Prefix-trans [] ys zs h k = tt
Prefix-trans (x ∷ xs) [] zs h k = absurd h
Prefix-trans (x ∷ xs) (y ∷ ys) [] h k = absurd k
Prefix-trans (x ∷ xs) (y ∷ ys) (z ∷ zs) h k = (h.0 ∙ k.0, Prefix-trans xs ys zs h.1 k.1)

-- `shared` is the longest common prefix.
shared_left : (xs ys : List ℕ) → Prefix (shared xs ys) xs
unfolding shared
shared_left [] ys = tt
shared_left (x ∷ xs) [] = tt
shared_left (x ∷ xs) (y ∷ ys) = elim (Bool-cases (x == y)) [
  | inl same ↦ rw same (refl, shared_left xs ys)
  | inr other ↦ rw other tt
]

shared_right : (xs ys : List ℕ) → Prefix (shared xs ys) ys
unfolding shared
shared_right [] ys = tt
shared_right (x ∷ xs) [] = tt
shared_right (x ∷ xs) (y ∷ ys) = elim (Bool-cases (x == y)) [
  | inl same ↦ rw same ((==_iff x y).0 same, shared_right xs ys)
  | inr other ↦ rw other tt
]

shared_longest : (ds xs ys : List ℕ) → Prefix ds xs → Prefix ds ys → Prefix ds (shared xs ys)
unfolding shared
shared_longest [] xs ys h k = tt
shared_longest (d ∷ ds) [] ys h k = absurd h
shared_longest (d ∷ ds) (x ∷ xs) [] h k = absurd k
shared_longest (d ∷ ds) (x ∷ xs) (y ∷ ys) h k =
    let same = (==_iff x y).1 (sym h.0 ∙ k.0) in rw same (h.0, shared_longest ds xs ys h.1 k.1)

-- The outcomes of `common_from` but for a list.
abbrev IsNoAnswer : Option (Result MetricUnavailableReason (List ℕ)) → Type 0
IsNoAnswer o = (o ≡ none) ⊎ ((r : MetricUnavailableReason) × (o ≡ some (err r)))

common-cases :
    (o : Option (Result MetricUnavailableReason (List ℕ)))
    → IsNoAnswer o ⊎ ((c : List ℕ) × (o ≡ some (ok c)))
common-cases none = inl (inl refl)
common-cases (some (err r)) = inl (inr (r, refl))
common-cases (some (ok c)) = inr (c, refl)

ok_or-eq-ok : (o : Option ℕ) (r : MetricUnavailableReason) (i : ℕ) → ok_or o r ≡ ok i → o ≡ some i
ok_or-eq-ok none r i e = absurd (cc)
ok_or-eq-ok (some j) r i e = cc

module _ {G : Type 0} ⦃petgraph : DiGraph HeaderInfo G⦄ where
  -- The list is a prefix of the path to the block `a`.
  abbrev pub LeadsTo : TreeInfo G → List ℕ → ℕ → Type 0
  LeadsTo t ds a = (path : List ℕ) × (path_to_root t a ≡ some path) × Prefix ds path

  common_from_lem :
      (t : TreeInfo G) (common rest c : List ℕ)
      → common_from t common rest ≡ some (ok c)
      → Prefix c common
        × All (LeadsTo t c) rest
        × ((ds : List ℕ) → Prefix ds common → All (LeadsTo t ds) rest → Prefix ds c)
  unfolding common_from
  common_from_lem t common [] c e =
      let same : common ≡ c = ground arith in rw same (Prefix-refl c, tt, λ ds h _. h)
  common_from_lem t common (a ∷ rest) c e = elim (Option-cases (path_to_root t a)) [
    | inl endless ↦ absurd (cc (rw (endless, common_from) at e))
    | inr (path, found) ↦ elim (Bool-cases (is_empty (shared common path))) [
      | inl apart ↦ absurd (cc (rw (found, apart, common_from) at e))
      | inr joined ↦
          let (below, leads, longest) =
            common_from_lem t (shared common path) rest c (rw (found, joined, common_from) at e) in
          (
            Prefix-trans c _ common below (shared_left common path),
            ((path, found, Prefix-trans c _ path below (shared_right common path)), leads),
            λ ds h all.
                let (path', found', k) = all.0 in
                let same : path' ≡ path = cc in
                longest ds (shared_longest ds common path h (rw same at k)) all.1,
          )
    ]
  ]

  -- What `resolve` returns is the end of the longest list of blocks with which the paths from the root
  -- to all the tips begin.
  pub resolve_lem :
      (t : TreeInfo G) (tips : List ℕ) (resolved_tip : ℕ)
      → resolve t tips ≡ some (ok resolved_tip)
      → (common : List ℕ) × (last common ≡ some resolved_tip)
        × All (LeadsTo t common) tips
        × ((ds : List ℕ) → All (LeadsTo t ds) tips → Prefix ds common)
  unfolding resolve
  resolve_lem t [] i e = absurd (cc)
  resolve_lem t (a ∷ rest) i e = elim (Option-cases (path_to_root t a)) [
    | inl endless ↦ absurd (cc (rw (endless, resolve) at e))
    | inr (path, found) ↦ elim (common-cases (common_from t path rest)) [
      | inl other ↦ absurd (no_answer path found other)
      | inr (c, from) ↦
          let (below, leads, longest) = common_from_lem t path rest c from in
          let at_end : ok_or (last c) insufficient_history ≡ ok i =
            some_eq (rw (found, from, resolve) at e) in
          (
            c,
            ok_or-eq-ok (last c) insufficient_history i at_end,
            ((path, found, below), leads),
            λ ds all.
                let (path', found', k) = all.0 in
                let same : path' ≡ path = cc in longest ds (rw same at k) all.1,
          )
    ]
  ]
    where
      no_answer :
          (path : List ℕ) → path_to_root t a ≡ some path → IsNoAnswer (common_from t path rest) → ⊥
      no_answer path found (inl nothing) = cc (rw (found, nothing, resolve) at e)
      no_answer path found (inr (r, failed)) = cc (rw (found, failed, resolve) at e)

  common_from_returns :
      (t : TreeInfo G) (common rest : List ℕ)
      → HeightsRise t
      → (r : Result MetricUnavailableReason (List ℕ)) × (common_from t common rest ≡ some r)
  unfolding common_from
  common_from_returns t common [] rise = (ok common, refl)
  common_from_returns t common (a ∷ rest) rise =
      let (path, found, _) = path_to_root_lem t a rise in
      elim (Bool-cases (is_empty (shared common path))) [
        | inl apart ↦ (err insufficient_history, rw (found, apart, common_from))
        | inr joined ↦
            let (r, e) = common_from_returns t (shared common path) rest rise in
            (r, rw (found, joined, common_from) e)
      ]

  pub resolve_returns :
      (t : TreeInfo G) (a : ℕ) (rest : List ℕ)
      → HeightsRise t
      → (r : Result MetricUnavailableReason ℕ) × (resolve t (a ∷ rest) ≡ some r)
  unfolding resolve
  resolve_returns t a rest rise =
      let (path, found, _) = path_to_root_lem t a rise in
      let (r, e) = common_from_returns t path rest rise in
      (r >>= (λ c. ok_or (last c) insufficient_history), rw (found, e, resolve) refl)
