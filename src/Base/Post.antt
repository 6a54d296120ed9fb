-- ===== src/Base/Post.antt =====
-- What holds of the result of fallible code, if it returns: one rule for each way to build it.
use mathlib.Core.Path.{◌≡◌, refl, subst}
use mathlib.Core.Bool.{Bool, true, false}
use mathlib.Core.Option.{Option, none, some}
use yukino_go.Base.Tests.{if◌then◌else◌}
use yukino_go.Base.Fallible.{Res, ok, err, panic, ◌>>=◌, must}

pub record Ensures {ℓ κ μ} {E : Type ℓ} {A : Type κ} (P : A → Type μ) (m : Res E A)
    : Type (ℓ ⊔ κ ⊔ μ) where
  pub at : (a : A) → m ≡ ok a → P a

module _ {ℓ κ μ} {E : Type ℓ} {A : Type κ} {P : A → Type μ} where
  pub Ensures-ok : {a : A} → P a → Ensures {E = E} P (ok a)
  Ensures-ok {a} h = record { at = λ b e. subst P (cc) h }

  pub Ensures-panic : Ensures {E = E} P panic
  Ensures-panic = record { at = λ a e. cc }

  pub Ensures-err : {x : E} → Ensures P (err x)
  Ensures-err = record { at = λ a e. cc }

  pub Ensures-if :
      (b : Bool) {m n : Res E A}
      → (b ≡ true → Ensures P m)
      → (b ≡ false → Ensures P n)
      → Ensures P (if b then m else n)
  Ensures-if true h k = h refl
  Ensures-if false h k = k refl

  pub Ensures-must : (m : Res E A) → Ensures P m → Ensures P (must m)
  Ensures-must (ok a) h = h
  Ensures-must (err e) h = Ensures-panic
  Ensures-must panic h = Ensures-panic

module _ {ℓ κ μ λ'} {E : Type ℓ} {A : Type κ} {P : A → Type μ} {X : Type λ'} where
  pub Ensures-option :
      (o : Option X) {m : Res E A} {f : X → Res E A}
      → Ensures P m
      → ((x : X) → o ≡ some x → Ensures P (f x))
      → Ensures P (elim o [ none ↦ m | some x ↦ f x ])
  Ensures-option none h k = h
  Ensures-option (some x) h k = k x refl

module _ {ℓ κ μ ν} {E : Type ℓ} {A : Type κ} {P : A → Type μ} {Q : A → Type ν} where
  pub Ensures-weaken : {m : Res E A} → Ensures P m → ((a : A) → P a → Q a) → Ensures Q m
  Ensures-weaken h f = record { at = λ a e. f a (h.at a e) }

module _ {ℓ κ μ λ' ν} {E : Type ℓ} {A : Type κ} {B : Type λ'} {P : A → Type μ}
    {Q : B → Type ν} where
  pub Ensures-bind :
      (m : Res E A) (f : A → Res E B)
      → Ensures P m
      → ((a : A) → P a → Ensures Q (f a))
      → Ensures Q (m >>= f)
  Ensures-bind (ok a) f h k = k a (h.at a refl)
  Ensures-bind (err e) f h k = Ensures-err
  Ensures-bind panic f h k = Ensures-panic

module _ {ℓ κ λ' ν} {E : Type ℓ} {A : Type κ} {B : Type λ'} {Q : B → Type ν} where
  -- Where nothing needs to be known of the first step, but that it returned.
  pub Ensures-then :
      (m : Res E A) (f : A → Res E B) → ((a : A) → m ≡ ok a → Ensures Q (f a)) → Ensures Q (m >>= f)
  Ensures-then (ok a) f k = k a refl
  Ensures-then (err e) f k = Ensures-err
  Ensures-then panic f k = Ensures-panic
