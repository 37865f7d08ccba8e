-- ===== src/Prelude/Sorting.antt =====
-- `sort_by_key`: the standard library's stable sort, as an insertion sort.
use Prim.Native.Nat.{ℕ, suc, ◌≤◌}
use mathlib.Core.Path.{◌≡◌, refl}
use mathlib.Core.Logic.{◌↔◌, ◌⊎◌, inl, inr}
use mathlib.Core.List.{List, [], ◌∷◌}
use native.Mathlib.Omega.{arith}
use reorg_playground.Prelude.Tests.{if◌then◌else◌, leb, Bool-cases}
use reorg_playground.Prelude.Lists.{length, count, All, All-map, Any}

module _ {A : Type 0} (key : A → ℕ) where
  -- Before the first element whose key is not smaller: equal keys keep their order.
  abbrev pub insert_sorted : A → List A → List A
  insert_sorted x [] = x ∷ []
  insert_sorted x (y ∷ ys) = if leb (key x) (key y) then x ∷ y ∷ ys else y ∷ insert_sorted x ys

  abbrev pub sort_by_key : List A → List A
  sort_by_key [] = []
  sort_by_key (x ∷ xs) = insert_sorted x (sort_by_key xs)

  abbrev pub IsSortedBy : List A → Type 0
  IsSortedBy [] = Unit
  IsSortedBy (x ∷ xs) = All (λ y. key x ≤ key y) xs × IsSortedBy xs

  length-insert_sorted : (x : A) (xs : List A) → length (insert_sorted x xs) ≡ suc (length xs)
  length-insert_sorted x [] = refl
  length-insert_sorted x (y ∷ ys) = ground (arith, length-insert_sorted x ys)

  pub length-sort_by_key : (xs : List A) → length (sort_by_key xs) ≡ length xs
  length-sort_by_key [] = refl
  length-sort_by_key (x ∷ xs) =
      omega (arith, length-insert_sorted x (sort_by_key xs), length-sort_by_key xs)

  All-insert_sorted :
      (P : A → Type 0) (x : A) (xs : List A) → P x → All P xs → All P (insert_sorted x xs)
  All-insert_sorted P x [] h all = (h, tt)
  All-insert_sorted P x (y ∷ ys) h all = elim (Bool-cases (leb (key x) (key y))) [
    | inl le ↦ rw le (h, all)
    | inr gt ↦ rw gt (all.0, All-insert_sorted P x ys h all.1)
  ]

  pub All-sort_by_key : (P : A → Type 0) (xs : List A) → All P xs → All P (sort_by_key xs)
  All-sort_by_key P [] all = tt
  All-sort_by_key P (x ∷ xs) all =
      All-insert_sorted P x (sort_by_key xs) all.0 (All-sort_by_key P xs all.1)

  Any-insert_sorted :
      (P : A → Type 0) (x : A) (xs : List A) → Any P (insert_sorted x xs) ↔ (P x ⊎ Any P xs)
  Any-insert_sorted P x [] = (λ a. a, λ a. a)
  Any-insert_sorted P x (y ∷ ys) =
      let (from, to) = Any-insert_sorted P x ys in
      elim (Bool-cases (leb (key x) (key y))) [
        | inl le ↦ rw le (λ a. a, λ a. a)
        | inr gt ↦ rw gt (
          λ a. elim a [
            | inl at_y ↦ inr (inl at_y)
            | inr later ↦ elim (from later) [ inl at_x ↦ inl at_x | inr rest ↦ inr (inr rest) ]
          ],
          λ a. elim a [
            | inl at_x ↦ inr (to (inl at_x))
            | inr others ↦ elim others [ inl at_y ↦ inl at_y | inr rest ↦ inr (to (inr rest)) ]
          ],
        )
      ]

  pub Any-sort_by_key : (P : A → Type 0) (xs : List A) → Any P (sort_by_key xs) ↔ Any P xs
  Any-sort_by_key P [] = (λ a. a, λ a. a)
  Any-sort_by_key P (x ∷ xs) =
      let (from, to) = Any-insert_sorted P x (sort_by_key xs) in
      let (from_rest, to_rest) = Any-sort_by_key P xs in
      (
        λ a. elim (from a) [ inl here ↦ inl here | inr later ↦ inr (from_rest later) ],
        λ a. elim a [ inl here ↦ to (inl here) | inr later ↦ to (inr (to_rest later)) ],
      )

  All_of_insert_sorted :
      (P : A → Type 0) (x : A) (xs : List A) → All P (insert_sorted x xs) → P x × All P xs
  All_of_insert_sorted P x [] all = all
  All_of_insert_sorted P x (y ∷ ys) all = elim (Bool-cases (leb (key x) (key y))) [
    | inl le ↦ rw le at all
    | inr gt ↦
        let (at_y, rest) = rw gt at all in
        let (at_x, others) = All_of_insert_sorted P x ys rest in (at_x, (at_y, others))
  ]

  pub All_of_sort_by_key : (P : A → Type 0) (xs : List A) → All P (sort_by_key xs) → All P xs
  All_of_sort_by_key P [] all = tt
  All_of_sort_by_key P (x ∷ xs) all =
      let (at_x, rest) = All_of_insert_sorted P x (sort_by_key xs) all in
      (at_x, All_of_sort_by_key P xs rest)

  insert_sorted-IsSortedBy : (x : A) (xs : List A) → IsSortedBy xs → IsSortedBy (insert_sorted x xs)
  insert_sorted-IsSortedBy x [] s = (tt, tt)
  insert_sorted-IsSortedBy x (y ∷ ys) s = elim (Bool-cases (leb (key x) (key y))) [
    | inl le ↦
        let xy : key x ≤ key y = ground arith in
        rw le ((xy, All-map _ _ ys (λ z yz. omega arith) s.0), s)
    | inr gt ↦
        let yx : key y ≤ key x = ground arith in
        rw gt (All-insert_sorted _ x ys yx s.0, insert_sorted-IsSortedBy x ys s.1)
  ]

  pub sort_by_key-IsSortedBy : (xs : List A) → IsSortedBy (sort_by_key xs)
  sort_by_key-IsSortedBy [] = tt
  sort_by_key-IsSortedBy (x ∷ xs) =
      insert_sorted-IsSortedBy x (sort_by_key xs) (sort_by_key-IsSortedBy xs)

  insert_sorted_first :
      (x : A) (xs : List A) → All (λ y. key x ≤ key y) xs → insert_sorted x xs ≡ x ∷ xs
  insert_sorted_first x [] all = refl
  insert_sorted_first x (y ∷ ys) all = let le = all.0 in ground arith

  -- What is sorted stays as it is.
  pub sort_by_key_sorted : (xs : List A) → IsSortedBy xs → sort_by_key xs ≡ xs
  sort_by_key_sorted [] s = refl
  sort_by_key_sorted (x ∷ xs) s = rw (sort_by_key_sorted xs s.1) (insert_sorted_first x xs s.0)

-- Sorting numbers keeps how often each one stands in the list.
count-insert_sorted :
    (a x : ℕ) (xs : List ℕ) → count a (insert_sorted (λ n. n) x xs) ≡ count a (x ∷ xs)
count-insert_sorted a x [] = refl
count-insert_sorted a x (y ∷ ys) = ground (arith, count-insert_sorted a x ys)

pub count-sort : (a : ℕ) (xs : List ℕ) → count a (sort_by_key (λ n. n) xs) ≡ count a xs
count-sort a [] = refl
count-sort a (x ∷ xs) =
    ground (arith, count-insert_sorted a x (sort_by_key (λ n. n) xs), count-sort a xs)
