-- ===== src/Fetch/Ranges.antt =====
-- Lists of headers by their heights, and what is sent in batches (src/node/shared_fetch.rs).
use reorg_playground.Prelude.{
  append-nil, append_assoc, ℕ, zero, suc, ◌+◌, ◌≡◌, refl, sym, ap, ◌∙◌, inl, inr, Bool, true, false,
  leb, List, [], ◌∷◌, ◌++◌, map, arith, range, sort_by_key, insert_sorted, Bool-cases,
}
use reorg_playground.Types.{HeaderInfo}
use reorg_playground.Fetch.{send_progress_batch}

-- The `n` numbers from `lo` on, the last one first
abbrev pub down : ℕ → ℕ → List ℕ
down lo zero = []
down lo (suc n) = (lo + n) ∷ down lo n

abbrev pub concat {ℓ} : {A : Type ℓ} → List (List A) → List A
concat [] = []
concat (xs ∷ xss) = xs ++ concat xss

abbrev pub heights : List HeaderInfo → List ℕ
heights headers = map (λ h. h.height) headers

pub pair_eq : {A B : Type 0} {p : A × B} {a : A} → p.0 ≡ a → p ≡ (a, p.1)
pair_eq {p = p} e = ap (λ a. (a, p.1)) e

pub concat-append :
    {A : Type 0} (xss yss : List (List A)) (zs : List A)
    → concat (xss ++ yss) ++ zs ≡ concat xss ++ (concat yss ++ zs)
concat-append [] yss zs = refl
concat-append (xs ∷ xss) yss zs =
    append_assoc xs (concat (xss ++ yss)) zs
    ∙ ap (λ l. xs ++ l) (concat-append xss yss zs)
    ∙ sym (append_assoc xs (concat xss) (concat yss ++ zs))

-- Sorting by a key sorts the keys.
heights-insert_sorted :
    (h : HeaderInfo) (hs : List HeaderInfo)
    → heights (insert_sorted (λ h. h.height) h hs) ≡ insert_sorted (λ n. n) h.height (heights hs)
heights-insert_sorted h [] = refl
heights-insert_sorted h (x ∷ hs) = elim (Bool-cases (leb h.height x.height)) [
  | inl le ↦ rw le refl
  | inr gt ↦ rw gt (ap (λ l. x.height ∷ l) (heights-insert_sorted h hs))
]

pub heights-sort :
    (hs : List HeaderInfo)
    → heights (sort_by_key (λ h. h.height) hs) ≡ sort_by_key (λ n. n) (heights hs)
heights-sort [] = refl
heights-sort (h ∷ hs) =
    heights-insert_sorted h (sort_by_key (λ h. h.height) hs)
    ∙ ap (λ l. insert_sorted (λ n. n) h.height l) (heights-sort hs)

insert_sorted-range : (lo n : ℕ) → insert_sorted (λ n. n) (lo + n) (range lo n) ≡ range lo (suc n)
insert_sorted-range lo zero = let e : lo + 0 ≡ lo = omega arith in rw e refl
insert_sorted-range lo (suc n) =
    let above : leb (lo + suc n) lo ≡ false = ground arith in
    let e : lo + suc n ≡ lo + 1 + n = omega arith in
    rw above (
      ap (λ l. lo ∷ l)
        (ap (λ m. insert_sorted (λ n. n) m (range (lo + 1) n)) e ∙ insert_sorted-range (lo + 1) n))

pub sort-down : (lo n : ℕ) → sort_by_key (λ n. n) (down lo n) ≡ range lo n
sort-down lo zero = refl
sort-down lo (suc n) =
    ap (λ l. insert_sorted (λ n. n) (lo + n) l) (sort-down lo n) ∙ insert_sorted-range lo n

pub progress-concat :
    (listening : Bool) (sent : List (List HeaderInfo)) (batch : List HeaderInfo)
    → listening ≡ true
    → concat (sent ++ send_progress_batch listening batch) ≡ concat sent ++ batch
progress-concat listening sent [] on = ap concat (append-nil sent) ∙ sym (append-nil (concat sent))
progress-concat listening sent (h ∷ hs) on = rw on (
    sym (append-nil _)
    ∙ concat-append sent ((h ∷ hs) ∷ []) []
    ∙ ap (λ l. concat sent ++ l) (append-nil _ ∙ append-nil _))
