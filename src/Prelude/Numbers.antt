-- ===== src/Prelude/Numbers.antt =====
-- `BTreeSet<u64>` as an ascending list of numbers, and the numbers counted in a `BTreeMap<u64, usize>`.
use Prim.Native.Nat.{ℕ, zero, suc, ◌+◌, ◌≤◌, ◌<◌}
use mathlib.Core.Path.{◌≡◌, refl}
use mathlib.Core.Logic.{◌⊎◌, ◌↔◌, inl, inr}
use mathlib.Core.Bool.{Bool, true, ◌||◌}
use mathlib.Core.List.{List, [], ◌∷◌}
use native.Mathlib.Omega.{arith}
use reorg_playground.Prelude.Tests.{if◌then◌else◌, ltb, ◌==◌, Bool-cases}
use reorg_playground.Prelude.Lists.{length, count, take, filter_by, range, All, All-map}
use reorg_playground.Prelude.Maps.{Map, contains_key}

-- `set.insert(n)`
abbrev pub insert_number : ℕ → List ℕ → List ℕ
insert_number n [] = n ∷ []
insert_number n (m ∷ ms) =
    if ltb n m then n ∷ m ∷ ms else if n == m then m ∷ ms else m ∷ insert_number n ms

-- `for n in ns { set.insert(n); }`
abbrev pub insert_numbers : List ℕ → List ℕ → List ℕ
insert_numbers [] set = set
insert_numbers (n ∷ ns) set = insert_numbers ns (insert_number n set)

-- `*map.entry(n).or_insert(0) += 1`
abbrev pub count_entry : ℕ → Map ℕ → Map ℕ
count_entry n [] = (n, 1) ∷ []
count_entry n ((m, k) ∷ entries) =
    if ltb n m
    then (n, 1) ∷ (m, k) ∷ entries
    else if n == m
    then (m, suc k) ∷ entries
    else (m, k) ∷ count_entry n entries

abbrev pub IsAscending : List ℕ → Type 0
IsAscending [] = Unit
IsAscending (x ∷ xs) = All (λ y. x < y) xs × IsAscending xs

pub count-insert_number :
    (a n : ℕ) (set : List ℕ) → (0 < count a (insert_number n set)) ↔ ((a ≡ n) ⊎ (0 < count a set))
count-insert_number a n [] = (λ h. ground arith, λ h. ground arith)
count-insert_number a n (m ∷ ms) =
    let ih = count-insert_number a n ms in (λ h. ground arith, λ h. ground arith)

pub length-insert_number : (n : ℕ) (set : List ℕ) → length (insert_number n set) ≤ suc (length set)
length-insert_number n [] = omega arith
length-insert_number n (m ∷ ms) = ground (arith, length-insert_number n ms)

All-insert_number :
    (P : ℕ → Type 0) (n : ℕ) (set : List ℕ) → P n → All P set → All P (insert_number n set)
All-insert_number P n [] h all = (h, tt)
All-insert_number P n (m ∷ ms) h all = elim (Bool-cases (ltb n m)) [
  | inl before ↦ rw before (h, all)
  | inr after ↦ elim (Bool-cases (n == m)) [
    | inl same ↦ rw (after, same) all
    | inr other ↦ rw (after, other) (all.0, All-insert_number P n ms h all.1)
  ]
]

insert_number-IsAscending :
    (n : ℕ) (set : List ℕ) → IsAscending set → IsAscending (insert_number n set)
insert_number-IsAscending n [] s = (tt, tt)
insert_number-IsAscending n (m ∷ ms) s = elim (Bool-cases (ltb n m)) [
  | inl before ↦
      let nm : n < m = ground arith in rw before ((nm, All-map _ _ ms (λ y my. omega arith) s.0), s)
  | inr after ↦ elim (Bool-cases (n == m)) [
    | inl same ↦ rw (after, same) s
    | inr other ↦
        let mn : m < n = ground arith in
        rw (after, other) (All-insert_number _ n ms mn s.0, insert_number-IsAscending n ms s.1)
  ]
]

pub insert_numbers-IsAscending :
    (ns set : List ℕ) → IsAscending set → IsAscending (insert_numbers ns set)
insert_numbers-IsAscending [] set s = s
insert_numbers-IsAscending (n ∷ ns) set s =
    insert_numbers-IsAscending ns (insert_number n set) (insert_number-IsAscending n set s)

pub length-insert_numbers :
    (ns set : List ℕ) → length (insert_numbers ns set) ≤ length ns + length set
length-insert_numbers [] set = omega arith
length-insert_numbers (n ∷ ns) set =
    omega (arith, length-insert_numbers ns (insert_number n set), length-insert_number n set)

pub count-insert_numbers :
    (a : ℕ) (ns set : List ℕ)
    → (0 < count a (insert_numbers ns set)) ↔ ((0 < count a ns) ⊎ (0 < count a set))
count-insert_numbers a [] set = (λ h. inr h, λ h. ground arith)
count-insert_numbers a (n ∷ ns) set =
    let rest = count-insert_numbers a ns (insert_number n set) in
    let one = count-insert_number a n set in (λ h. ground arith, λ h. ground arith)

-- A number has an entry exactly if it was counted.
pub contains_key-count_entry :
    (a n : ℕ) (entries : Map ℕ)
    → contains_key a (count_entry n entries) ≡ ((n == a) || contains_key a entries)
contains_key-count_entry a n [] = ground arith
contains_key-count_entry a n ((m, k) ∷ entries) =
    ground (arith, contains_key-count_entry a n entries)

-- Parts of a list of numbers
pub count-take : (a n : ℕ) (xs : List ℕ) → 0 < count a (take n xs) → 0 < count a xs
count-take a zero xs h = absurd (omega arith)
count-take a (suc n) [] h = h
count-take a (suc n) (x ∷ xs) h = ground (arith, count-take a n xs)

pub length-take : (n : ℕ) (xs : List ℕ) → length (take n xs) ≤ n
length-take zero xs = omega arith
length-take (suc n) [] = omega arith
length-take (suc n) (x ∷ xs) = omega (arith, length-take n xs)

pub length-filter_by : (p : ℕ → Bool) (xs : List ℕ) → length (filter_by p xs) ≤ length xs
length-filter_by p [] = omega arith
length-filter_by p (x ∷ xs) = ground (arith, length-filter_by p xs)

pub length-range : (lo n : ℕ) → length (range lo n) ≡ n
length-range lo zero = refl
length-range lo (suc n) = omega (arith, length-range (lo + 1) n)

pub count-range : (a lo n : ℕ) → (0 < count a (range lo n)) ↔ ((lo ≤ a) × (a < lo + n))
count-range a lo zero = (λ h. absurd (omega arith), λ (x, y). absurd (omega arith))
count-range a lo (suc n) =
    let rest = count-range a (lo + 1) n in (λ h. ground arith, λ (x, y). ground arith)

pub filter_by-count :
    (p : ℕ → Bool) (a : ℕ) (xs : List ℕ)
    → 0 < count a xs
    → p a ≡ true
    → 0 < count a (filter_by p xs)
filter_by-count p a [] m h = m
filter_by-count p a (x ∷ xs) m h = elim (Bool-cases (p x)) [
  | inl kept ↦ rw kept (ground (arith, filter_by-count p a xs))
  | inr dropped ↦ rw dropped (ground (arith, filter_by-count p a xs))
]
