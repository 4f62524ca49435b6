-- ===== src/Prelude/Lists.antt =====
-- Lists measured and searched with native numbers and Booleans, under the library's names.
use Prim.Native.Nat.{ℕ, zero, suc, ◌+◌}
use mathlib.Core.Path.{◌≡◌, refl, ap, ◌∙◌}
use mathlib.Core.Logic.{inl, inr}
use mathlib.Core.Bool.{Bool, true, false, ◌&&◌, ◌||◌}
use mathlib.Core.List.{List, [], ◌∷◌, ◌++◌}
use native.Mathlib.Omega.{arith}
use ikimetr.Prelude.Tests.{if◌then◌else◌, Bool-cases}

module _ {ℓ} {A : Type ℓ} where
  abbrev pub length : List A → ℕ
  length [] = 0
  length (x ∷ xs) = suc (length xs)

  abbrev pub take : ℕ → List A → List A
  take zero xs = []
  take (suc n) [] = []
  take (suc n) (x ∷ xs) = x ∷ take n xs

  -- `xs.some(p)`
  abbrev pub any : (A → Bool) → List A → Bool
  any p [] = false
  any p (x ∷ xs) = p x || any p xs

  -- `xs.every(p)`
  abbrev pub all : (A → Bool) → List A → Bool
  all p [] = true
  all p (x ∷ xs) = p x && all p xs

  -- `xs.filter(p)`
  abbrev pub keep : (A → Bool) → List A → List A
  keep p [] = []
  keep p (x ∷ xs) = let rest = keep p xs in if p x then x ∷ rest else rest

  abbrev pub All {κ} : (A → Type κ) → List A → Type κ
  All P [] = Unit
  All P (x ∷ xs) = P x × All P xs

  pub length-append : (xs ys : List A) → length (xs ++ ys) ≡ length xs + length ys
  length-append [] ys = omega arith
  length-append (x ∷ xs) ys = omega (arith, length-append xs ys)

  pub any-append : (p : A → Bool) (xs ys : List A) → any p (xs ++ ys) ≡ (any p xs || any p ys)
  any-append p [] ys = refl
  any-append p (x ∷ xs) ys = ground (arith, any-append p xs ys)

  pub keep-append : (p : A → Bool) (xs ys : List A) → keep p (xs ++ ys) ≡ keep p xs ++ keep p ys
  keep-append p [] ys = refl
  keep-append p (x ∷ xs) ys = ground (arith, keep-append p xs ys)

append-cons {ℓ} :
    {A : Type ℓ} (f : List A) (y : A) (m n : List A) → f ++ y ∷ (m ++ n) ≡ (f ++ y ∷ m) ++ n
append-cons [] y m n = refl
append-cons (z ∷ f) y m n = ap (λ t. z ∷ t) (append-cons f y m n)

pub keep-none {ℓ} :
    {A : Type ℓ} (p : A → Bool) (l : List A) → keep p l ≡ [] → All (λ x. p x ≡ false) l
keep-none p [] h = tt
keep-none p (x ∷ l) h = elim (Bool-cases (p x)) [
  | inl e ↦ cc (rw (e, keep) at h)
  | inr e ↦ (e, keep-none p l (rw (e, keep) at h))
]

-- A list up to the first element that is kept.
pub keep-first {ℓ} :
    {A : Type ℓ} (p : A → Bool) (l : List A) (a : A) (k : List A)
    → keep p l ≡ a ∷ k
    → (front rest : List A) × (l ≡ front ++ a ∷ rest)
      × (p a ≡ true)
      × All (λ x. p x ≡ false) front
      × (keep p rest ≡ k)
keep-first p [] a k h = cc
keep-first p (x ∷ l) a k h = elim (Bool-cases (p x)) [
  | inl e ↦
      let same = rw (e, keep) at h in
      ([], l, ap (λ y. y ∷ l) (cc same), ap p (cc same) ∙ e, tt, cc same)
  | inr e ↦
      let (front, rest, split, kept, none_kept, more) = keep-first p l a k (rw (e, keep) at h) in
      (x ∷ front, rest, ap (λ t. x ∷ t) split, kept, (e, none_kept), more)
]

-- A list up to the last elements that are kept.
pub keep-last {ℓ} :
    {A : Type ℓ} (p : A → Bool) (earlier l k : List A)
    → keep p l ≡ earlier ++ k
    → (front rest : List A) × (l ≡ front ++ rest) × (keep p rest ≡ k)
keep-last p [] l k h = ([], l, refl, h)
keep-last p (e ∷ earlier) l k h =
    let (front, rest, split, _, _, more) = keep-first p l e (earlier ++ k) h in
    let (middle, last, again, kept) = keep-last p earlier rest k more in
    (
      front ++ e ∷ middle,
      last,
      split ∙ ap (λ t. front ++ e ∷ t) again ∙ append-cons front e middle last,
      kept,
    )

pub All-map {ℓ κ μ} :
    {A : Type ℓ} {P : A → Type κ} {Q : A → Type μ} (l : List A)
    → ((x : A) → P x → Q x)
    → All P l
    → All Q l
All-map [] f h = tt
All-map (x ∷ l) f (h, t) = (f x h, All-map l f t)
