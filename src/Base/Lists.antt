-- ===== src/Base/Lists.antt =====
-- Lists measured by native numbers, and predicates and counts over lists.
use Prim.Native.Nat.{ℕ, zero, suc, ◌+◌, ◌≤◌}
use mathlib.Core.Path.{◌≡◌, refl, ap, ◌∙◌}
use mathlib.Core.Bool.{Bool, true, false, not, ◌||◌}
use mathlib.Core.Option.{Option, none, some}
use mathlib.Core.List.{List, [], ◌∷◌, ◌++◌}
use native.Mathlib.Omega.{arith}
use node_wiring_secure.Base.Tests.{if◌then◌else◌}

module _ {ℓ} {A : Type ℓ} where
  abbrev pub length : List A → ℕ
  length [] = 0
  length (x ∷ xs) = suc (length xs)

  abbrev pub get_elem? : List A → ℕ → Option A
  get_elem? [] i = none
  get_elem? (x ∷ xs) zero = some x
  get_elem? (x ∷ xs) (suc i) = get_elem? xs i

  abbrev pub take : ℕ → List A → List A
  take zero xs = []
  take (suc n) [] = []
  take (suc n) (x ∷ xs) = x ∷ take n xs

  pub take-length : (n : ℕ) (xs : List A) → length xs ≤ n → take n xs ≡ xs
  take-length zero [] h = refl
  take-length zero (x ∷ xs) h = absurd (omega (arith, h))
  take-length (suc n) [] h = refl
  take-length (suc n) (x ∷ xs) h = ap (λ l. x ∷ l) (take-length n xs (omega (arith, h)))

  pub length-append : (xs ys : List A) → length (xs ++ ys) ≡ length xs + length ys
  length-append [] ys = omega arith
  length-append (x ∷ xs) ys = omega (arith, length-append xs ys)

  -- The library's `filter`, `any` and `count` on a Boolean test.
  unfoldable pub filter : (A → Bool) → List A → List A
  filter p [] = []
  filter p (x ∷ xs) = let rest = filter p xs in if p x then x ∷ rest else rest

  pub filter-append :
      (p : A → Bool) (xs ys : List A) → filter p (xs ++ ys) ≡ filter p xs ++ filter p ys
  unfolding filter
  filter-append p [] ys = refl
  filter-append p (x ∷ xs) ys = ground (arith, filter-append p xs ys)

  unfoldable pub repeat : ℕ → A → List A
  repeat zero x = []
  repeat (suc n) x = x ∷ repeat n x

  -- So many times, or not at all.
  abbrev pub repeat_if : Bool → ℕ → A → List A
  repeat_if true n x = repeat n x
  repeat_if false n x = []

  pub repeat_if_add :
      (b : Bool) (m n : ℕ) (x : A) → repeat_if b m x ++ repeat_if b n x ≡ repeat_if b (m + n) x
  unfolding repeat
  repeat_if_add false m n x = refl
  repeat_if_add true zero n x = ap (λ k. repeat_if true k x) (omega arith)
  repeat_if_add true (suc m) n x =
      ap (λ xs. x ∷ xs) (repeat_if_add true m n x) ∙ ap (λ k. repeat_if true k x) (next m n)
    where
      next : (m n : ℕ) → suc (m + n) ≡ suc m + n
      next m n = omega arith

  pub repeat_if_zero : (b : Bool) (x : A) → repeat_if b 0 x ≡ []
  unfolding repeat
  repeat_if_zero true x = refl
  repeat_if_zero false x = refl

  pub repeat_if_one : (b : Bool) (x : A) → repeat_if b 1 x ≡ (if b then x ∷ [] else [])
  unfolding repeat
  repeat_if_one true x = refl
  repeat_if_one false x = refl

  unfoldable pub any : (A → Bool) → List A → Bool
  any p [] = false
  any p (x ∷ xs) = p x || any p xs

  unfoldable pub count : (A → Bool) → List A → ℕ
  count p [] = 0
  count p (x ∷ xs) = (if p x then 1 else 0) + count p xs

  pub count-append : (p : A → Bool) (xs ys : List A) → count p (xs ++ ys) ≡ count p xs + count p ys
  unfolding count
  count-append p [] ys = omega arith
  count-append p (x ∷ xs) ys = omega (arith, count-append p xs ys)

  pub any-append : (p : A → Bool) (xs ys : List A) → any p (xs ++ ys) ≡ (any p xs || any p ys)
  unfolding any
  any-append p [] ys = refl
  any-append p (x ∷ xs) ys = ground (arith, any-append p xs ys)

  abbrev pub All {κ} : (A → Type κ) → List A → Type κ
  All P [] = Unit
  All P (x ∷ xs) = P x × All P xs

  pub All-append {κ} : (P : A → Type κ) (xs ys : List A) → All P xs → All P ys → All P (xs ++ ys)
  All-append P [] ys hx hy = hy
  All-append P (x ∷ xs) ys hx hy = (hx.0, All-append P xs ys hx.1 hy)

  pub All-filter {κ} :
      (P : A → Type κ) (p : A → Bool) (xs : List A) → All P xs → All P (filter p xs)
  unfolding filter
  All-filter P p [] h = h
  All-filter P p (x ∷ xs) h = step (p x) (All-filter P p xs h.1)
    where
      step : (b : Bool) → All P (filter p xs) → All P (if b then x ∷ filter p xs else filter p xs)
      step true r = (h.0, r)
      step false r = r

  pub count-filter :
      (p q : A → Bool) (xs : List A)
      → count p (filter q xs) + count p (filter (λ x. not (q x)) xs) ≡ count p xs
  unfolding count filter
  count-filter p q [] = refl
  count-filter p q (x ∷ xs) = ground (arith, count-filter p q xs)

  -- The list without its first element in `p`.
  unfoldable pub erase_first : (A → Bool) → List A → List A
  erase_first p [] = []
  erase_first p (x ∷ xs) = if p x then xs else x ∷ erase_first p xs

  pub All-erase_first {κ} :
      (P : A → Type κ) (p : A → Bool) (xs : List A) → All P xs → All P (erase_first p xs)
  unfolding erase_first
  All-erase_first P p [] h = h
  All-erase_first P p (x ∷ xs) h = step (p x) (All-erase_first P p xs h.1)
    where
      step : (b : Bool) → All P (erase_first p xs) → All P (if b then xs else x ∷ erase_first p xs)
      step true r = h.1
      step false r = (h.0, r)

  -- arrayList_remove: the element at an index is taken out; past the end nothing happens.
  unfoldable pub erase_at : ℕ → List A → List A
  erase_at i [] = []
  erase_at zero (x ∷ xs) = xs
  erase_at (suc i) (x ∷ xs) = x ∷ erase_at i xs
