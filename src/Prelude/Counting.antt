-- ===== src/Prelude/Counting.antt =====
-- How often a number occurs in a list that is filtered or searched.
use reorg_playground.Prelude.Lists.{count, length, is_empty, any_by, filter_by}
use Prim.Native.Nat.{ℕ, ◌<◌}
use mathlib.Core.Path.{◌≡◌, refl}
use mathlib.Core.Logic.{inl, inr}
use mathlib.Core.Bool.{Bool, true, false}
use mathlib.Core.List.{List, [], ◌∷◌}
use native.Mathlib.Omega.{arith}
use reorg_playground.Prelude.Tests.{◌==◌, Bool-cases}

pub is_empty_count : (a : ℕ) (xs : List ℕ) → is_empty xs ≡ true → count a xs ≡ 0
is_empty_count a [] h = refl
is_empty_count a (x ∷ xs) h = absurd (cc)

pub not_empty_count : (xs : List ℕ) → is_empty xs ≡ false → (a : ℕ) × (0 < count a xs)
not_empty_count [] h = absurd (cc)
not_empty_count (x ∷ xs) h = (x, ground arith)

-- No element passes a filter exactly when the filtered list has length 0.
pub filter_none :
    (p : ℕ → Bool) (xs : List ℕ)
    → length (filter_by p xs) ≡ 0
    → (a : ℕ) → 0 < count a xs
    → p a ≡ false
filter_none p [] h a m = absurd (omega arith)
filter_none p (x ∷ xs) h a m = ground (arith, filter_none p xs (cut h) a)
  where
    cut : length (filter_by p (x ∷ xs)) ≡ 0 → length (filter_by p xs) ≡ 0
    cut e = ground arith

pub filter_none_of :
    (p : ℕ → Bool) (xs : List ℕ)
    → ((a : ℕ) → 0 < count a xs → p a ≡ false)
    → length (filter_by p xs) ≡ 0
filter_none_of p [] h = refl
filter_none_of p (x ∷ xs) h =
    let off : p x ≡ false = h x (ground arith) in
    rw off (filter_none_of p xs (λ a m. h a (ground arith)))

pub count-filter_by :
    (p : ℕ → Bool) (a : ℕ) (xs : List ℕ)
    → 0 < count a (filter_by p xs)
    → (0 < count a xs) × (p a ≡ true)
count-filter_by p a [] m = absurd (omega arith)
count-filter_by p a (x ∷ xs) m = elim (Bool-cases (p x)) [
  | inl kept ↦ ground (arith, count-filter_by p a xs)
  | inr dropped ↦ ground (arith, count-filter_by p a xs)
]

pub any_by-count :
    (p : ℕ → Bool) (xs : List ℕ) → any_by p xs ≡ true → (a : ℕ) × (0 < count a xs) × (p a ≡ true)
any_by-count p [] h = absurd (cc)
any_by-count p (x ∷ xs) h = elim (Bool-cases (p x)) [
  | inl here ↦ (x, ground arith, here)
  | inr not_here ↦
      let (a, m, there) = any_by-count p xs (rw not_here at h) in (a, ground arith, there)
]

pub any_by_of_count :
    (p : ℕ → Bool) (a : ℕ) (xs : List ℕ) → 0 < count a xs → p a ≡ true → any_by p xs ≡ true
any_by_of_count p a [] m h = absurd (omega arith)
any_by_of_count p a (x ∷ xs) m h = ground (arith, any_by_of_count p a xs)

-- What is found nowhere in a list stands in it zero times.
pub count-any_by : (x : ℕ) (xs : List ℕ) → any_by (λ y. y == x) xs ≡ false → count x xs ≡ 0
count-any_by x [] h = refl
count-any_by x (y ∷ xs) h = ground (arith, count-any_by x xs)
