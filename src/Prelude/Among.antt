-- ===== src/Prelude/Among.antt =====
-- What is said of some element of a list.
use mathlib.Core.Path.{◌≡◌, refl, ap}
use mathlib.Core.Logic.{◌↔◌, ◌⊎◌, inl, inr}
use mathlib.Core.Bool.{Bool, true}
use mathlib.Core.List.{List, [], ◌∷◌, ◌++◌}
use reorg_playground.Prelude.Tests.{Bool-cases}
use reorg_playground.Prelude.Lists.{All, Any, any_by}

pub any_by-Any :
    {A : Type 0} (p : A → Bool) (xs : List A) → any_by p xs ≡ true → Any (λ x. p x ≡ true) xs
any_by-Any p [] e = absurd (cc)
any_by-Any p (x ∷ xs) e = elim (Bool-cases (p x)) [
  | inl here ↦ inl here
  | inr no_match ↦ inr (any_by-Any p xs (rw no_match at e))
]

pub Any-imp :
    {A : Type 0} (P Q : A → Type 0) (xs : List A) → ((x : A) → P x → Q x) → Any P xs → Any Q xs
Any-imp P Q [] f some_x = absurd some_x
Any-imp P Q (x ∷ xs) f (inl here) = inl (f x here)
Any-imp P Q (x ∷ xs) f (inr later) = inr (Any-imp P Q xs f later)

pub Any-concat :
    {A : Type 0} (P : A → Type 0) (xs ys : List A) → Any P (xs ++ ys) ↔ (Any P xs ⊎ Any P ys)
Any-concat P [] ys = (λ a. inr a, λ a. elim a [ inl none ↦ absurd none | inr h ↦ h ])
Any-concat P (x ∷ xs) ys =
    let (from, to) = Any-concat P xs ys in
    (
      λ a. elim a [
        | inl here ↦ inl (inl here)
        | inr later ↦ elim (from later) [ inl left ↦ inl (inr left) | inr right ↦ inr right ]
      ],
      λ a. elim a [
        | inl left ↦ elim left [ inl here ↦ inl here | inr later ↦ inr (to (inl later)) ]
        | inr right ↦ inr (to (inr right))
      ],
    )

pub Any-append :
    {A : Type 0} (P : A → Type 0) (xs : List A) (y : A) → Any P (xs ++ y ∷ []) ↔ (P y ⊎ Any P xs)
Any-append P [] y = (λ a. elim a [ inl h ↦ inl h | inr none ↦ inr none ], λ a. a)
Any-append P (x ∷ xs) y =
    let (from, to) = Any-append P xs y in
    (
      λ a. elim a [
        | inl here ↦ inr (inl here)
        | inr later ↦ elim (from later) [ inl at_y ↦ inl at_y | inr old ↦ inr (inr old) ]
      ],
      λ a. elim a [
        | inl at_y ↦ inr (to (inl at_y))
        | inr old ↦ elim old [ inl here ↦ inl here | inr later ↦ inr (to (inr later)) ]
      ],
    )

-- What holds for one element holds for one that is the same.
pub Any-same :
    {A : Type 0} (P : A → Type 0) (xs ys : List A)
    → ((x : A) → Any (λ y. y ≡ x) xs → Any (λ y. y ≡ x) ys)
    → Any P xs
    → Any P ys
Any-same P [] ys into some_x = absurd some_x
Any-same P (x ∷ xs) ys into (inl here) =
    Any-imp (λ y. y ≡ x) P ys (λ y same. rw same here) (into x (inl refl))
Any-same P (x ∷ xs) ys into (inr later) = Any-same P xs ys (λ y m. into y (inr m)) later

pub All-concat :
    {A : Type 0} (P : A → Type 0) (xs : List A) (y : A) → All P xs → P y → All P (xs ++ y ∷ [])
All-concat P [] y a h = (h, tt)
All-concat P (x ∷ xs) y a h = (a.0, All-concat P xs y a.1 h)

pub append-nil {ℓ} : {A : Type ℓ} (xs : List A) → xs ++ [] ≡ xs
append-nil [] = refl
append-nil (x ∷ xs) = ap (λ l. x ∷ l) (append-nil xs)

pub append_assoc {ℓ} : {A : Type ℓ} (xs ys zs : List A) → (xs ++ ys) ++ zs ≡ xs ++ (ys ++ zs)
append_assoc [] ys zs = refl
append_assoc (x ∷ xs) ys zs = ap (λ l. x ∷ l) (append_assoc xs ys zs)
