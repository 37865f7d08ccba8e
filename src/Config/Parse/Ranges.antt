-- ===== src/Config/Parse/Ranges.antt =====
-- `normalize_stale_rate_ranges` of src/config.rs.
use reorg_playground.Prelude.{
  IsAscending, ℕ, suc, ◌<◌, ◌≡◌, ◌≢◌, zero, not_both, refl, ◌↔◌, ◌⊎◌, inl, inr, Bool, true, false,
  ◌==◌, ==_iff, List, [], ◌∷◌, ◌++◌, map, arith, All, All-map, any_by, any_by-count,
  any_by_of_count, count, List-cases, Bool-cases, sort_by_key, IsSortedBy, sort_by_key-IsSortedBy,
  count-sort, Result, ok, err, if◌then◌else◌,
}
use reorg_playground.Types.Metrics.{StaleRateRange}
use reorg_playground.Config.{ConfigError, invalid_stale_rate_windows}
use reorg_playground.Config.Parse.{dedup, normalize_stale_rate_ranges}

All-dedup : (P : ℕ → Type 0) (xs : List ℕ) → All P xs → All P (dedup xs)
unfolding dedup
All-dedup P [] all = tt
All-dedup P (x ∷ []) all = all
All-dedup P (x ∷ y ∷ xs) all = elim (Bool-cases (x == y)) [
  | inl same ↦ rw same (All-dedup P (y ∷ xs) all.1)
  | inr other ↦ rw other (all.0, All-dedup P (y ∷ xs) all.1)
]

dedup-IsAscending : (xs : List ℕ) → IsSortedBy (λ n. n) xs → IsAscending (dedup xs)
unfolding dedup
dedup-IsAscending [] s = tt
dedup-IsAscending (x ∷ []) s = (tt, tt)
dedup-IsAscending (x ∷ y ∷ xs) s = elim (Bool-cases (x == y)) [
  | inl same ↦ rw same (dedup-IsAscending (y ∷ xs) s.1)
  | inr other ↦
      let xy : x < y = let le = s.0.0 in ground arith in
      let above : All (λ z. x < z) (y ∷ xs) = (xy, All-map _ _ xs (λ z yz. omega arith) s.1.0) in
      rw other (All-dedup _ (y ∷ xs) above, dedup-IsAscending (y ∷ xs) s.1)
]

count-dedup : (a : ℕ) (xs : List ℕ) → (0 < count a (dedup xs)) ↔ (0 < count a xs)
unfolding dedup
count-dedup a [] = (λ h. h, λ h. h)
count-dedup a (x ∷ []) = (λ h. h, λ h. h)
count-dedup a (x ∷ y ∷ xs) =
    let ih = count-dedup a (y ∷ xs) in
    elim (Bool-cases (x == y)) [
      | inl same ↦
          let e : x ≡ y = (==_iff x y).0 same in rw same (λ h. ground arith, λ h. ground arith)
      | inr other ↦ rw other (λ h. ground arith, λ h. ground arith)
    ]

not_positive : (n : ℕ) → ¬ (0 < n) → n ≡ 0
not_positive zero h = refl
not_positive (suc n) h = absurd (h (omega arith))

-- What is known of the windows once there is no 0
normalized-count :
    (ws : List ℕ) (w : ℕ) → (0 < count w (dedup (sort_by_key (λ n. n) ws))) ↔ (0 < count w ws)
normalized-count ws w =
    let sorted = count-sort w ws in
    let same = count-dedup w (sort_by_key (λ n. n) ws) in (λ h. ground arith, λ h. ground arith)

-- What `normalize_stale_rate_ranges` may answer: the ranges of ascending windows with the same numbers as
-- the input, or the error, each with its cause.
abbrev pub IsNormalized : List ℕ → Bool → Result ConfigError (List StaleRateRange) → Type 0
IsNormalized rolling_windows include_all_time answer =
    ((windows : List ℕ) × (answer
        ≡ ok (
            map StaleRateRange.rolling windows
            ++ (if include_all_time then StaleRateRange.all_time ∷ [] else [])))
      × IsAscending windows
      × ((w : ℕ) → (0 < count w windows) ↔ (0 < count w rolling_windows))
      × (count 0 rolling_windows ≡ 0)
      × ((rolling_windows ≢ []) ⊎ (include_all_time ≡ true)))
    ⊎ ((answer ≡ err invalid_stale_rate_windows)
        × ((0 < count 0 rolling_windows) ⊎ ((rolling_windows ≡ []) × (include_all_time ≡ false))))

-- The ranges are the rolling windows of the configuration, each once and in ascending order, and then that
-- of all time if it is included. There is an error exactly for a window of 0 blocks, and where neither
-- a window nor that of all time is configured.
pub normalize_stale_rate_ranges_lem :
    (rolling_windows : List ℕ) (include_all_time : Bool)
    → IsNormalized rolling_windows include_all_time
        (normalize_stale_rate_ranges rolling_windows include_all_time)
unfolding normalize_stale_rate_ranges
normalize_stale_rate_ranges_lem ws all = elim (Bool-cases (any_by (λ w. w == 0) ws)) [
  | inl some_zero ↦
      let (z, m, is_zero) = any_by-count _ ws some_zero in
      inr (rw (some_zero, normalize_stale_rate_ranges) refl, inl (rw ((==_iff z 0).0 is_zero) at m))
  | inr no_zero ↦ without_zero no_zero (List-cases (dedup (sort_by_key (λ n. n) ws))) all refl
]
  where
    no_zeros : any_by (λ w. w == 0) ws ≡ false → count 0 ws ≡ 0
    no_zeros h = not_positive (count 0 ws) (λ m. not_both (any_by_of_count _ 0 ws m refl) h)

    ascending : IsAscending (dedup (sort_by_key (λ n. n) ws))
    ascending = dedup-IsAscending (sort_by_key (λ n. n) ws) (sort_by_key-IsSortedBy (λ n. n) ws)

    none_left : dedup (sort_by_key (λ n. n) ws) ≡ [] → ws ≡ []
    none_left e = elim (List-cases ws) [
      | inl nothing ↦ nothing
      | inr (x, xs, more) ↦
          let here : 0 < count x ws = rw more (ground arith) in
          absurd (omega (arith, rw e at ((normalized-count ws x).1 here)))
    ]

    without_zero :
        any_by (λ w. w == 0) ws ≡ false
        → (dedup (sort_by_key (λ n. n) ws) ≡ [])
          ⊎ ((x : ℕ) × (xs : List ℕ) × (dedup (sort_by_key (λ n. n) ws) ≡ x ∷ xs))
        → (b : Bool) → all ≡ b
        → IsNormalized ws all (normalize_stale_rate_ranges ws all)
    without_zero no_zero (inl nothing) true e = inl (
      dedup (sort_by_key (λ n. n) ws),
      rw (no_zero, e, nothing, normalize_stale_rate_ranges) refl,
      ascending,
      normalized-count ws,
      no_zeros no_zero,
      inr e,
    )
    without_zero no_zero (inl nothing) false e =
        inr (rw (no_zero, e, nothing, normalize_stale_rate_ranges) refl, inr (none_left nothing, e))
    without_zero no_zero (inr (x, xs, more)) b e = inl (
      dedup (sort_by_key (λ n. n) ws),
      rw (no_zero, more, normalize_stale_rate_ranges) refl,
      ascending,
      normalized-count ws,
      no_zeros no_zero,
      inl (λ gone. some_left x xs more gone),
    )
      where
        some_left : (x : ℕ) (xs : List ℕ) → dedup (sort_by_key (λ n. n) ws) ≡ x ∷ xs → ws ≡ [] → ⊥
        some_left x xs more gone =
            let here : 0 < count x (dedup (sort_by_key (λ n. n) ws)) = rw more (ground arith) in
            omega (arith, rw gone at ((normalized-count ws x).0 here))
