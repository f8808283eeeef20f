-- ===== src/Base/Action.antt =====
-- Stateful code that may fault: a step from a world to an answer and the world after it, or `none`.
use mathlib.Core.Path.{◌≡◌, ap, ◌∙◌}
use mathlib.Core.Option.{Option, none, some}

abbrev pub Action {ℓ κ} : Type κ → Type ℓ → Type (ℓ ⊔ κ)
Action W A = W → Option (A × W)

module _ {κ} {W : Type κ} where
  infixl 5 ◌>>=◌ ◌>>◌
  abbrev pub ◌>>=◌ {ℓ μ} : {A : Type ℓ} {B : Type μ} → Action W A → (A → Action W B) → Action W B
  ◌>>=◌ m f w = elim (m w) [ none ↦ none | some (a, w') ↦ f a w' ]

  abbrev pub ◌>>◌ {ℓ μ} : {A : Type ℓ} {B : Type μ} → Action W A → Action W B → Action W B
  m >> k = m >>= λ _. k

  abbrev pub pure {ℓ} : {A : Type ℓ} → A → Action W A
  pure a w = some (a, w)

  abbrev pub fault {ℓ} : {A : Type ℓ} → Action W A
  fault w = none

  -- A pointer that is read, or a step that may fault: a fault where there is nothing.
  abbrev pub deref {ℓ} : {A : Type ℓ} → Option A → Action W A
  deref none w = none
  deref (some a) w = some (a, w)

  -- A step that returns is followed by the rest.
  pub bind_at {ℓ μ} :
      {A : Type ℓ} {B : Type μ} (m : Action W A) (f : A → Action W B) (w : W) {a : A} {w' : W}
      → m w ≡ some (a, w')
      → (m >>= f) w ≡ f a w'
  bind_at {A} m f w p = ap (λ (r : Option (A × W)). elim r [ none ↦ none | some (x, v) ↦ f x v ]) p

  -- Whatever the world, the step does not fault.
  abbrev pub Returns {ℓ} : {A : Type ℓ} → Action W A → Type (ℓ ⊔ κ)
  Returns {A} m = (w : W) → (a : A) × (w' : W) × (m w ≡ some (a, w'))

  pub bind-Returns {ℓ μ} :
      {A : Type ℓ} {B : Type μ} (m : Action W A) (f : A → Action W B)
      → Returns m
      → ((a : A) → Returns (f a))
      → Returns (m >>= f)
  bind-Returns m f first rest w =
      let (a, w1, ran) = first w in
      let (b, w2, ran') = rest a w1 in (b, w2, bind_at m f w ran ∙ ran')
