-- ===== src/Base/Fallible.antt =====
-- Go code that may return an error or panic.
use Prim.Native.Nat.{ℕ, ◌-◌}
use mathlib.Core.Path.{◌≡◌, refl}
use mathlib.Core.Bool.{◌&&◌}
use mathlib.Core.Option.{Option, none, some}
use mathlib.Core.List.{List}
use yukino_go.Base.Tests.{leb, if◌then◌else◌}
use yukino_go.Base.Lists.{length, take, drop, get_elem?}

-- `E` is the type of the errors that are returned as values.
pub data Res {ℓ κ} (E : Type ℓ) (A : Type κ) : Type (ℓ ⊔ κ) where
  ok : A → Res E A
  err : E → Res E A
  panic : Res E A

infixl 5 ◌>>=◌
abbrev pub ◌>>=◌ {ℓ κ μ} :
    {E : Type ℓ} {A : Type κ} {B : Type μ} → Res E A → (A → Res E B) → Res E B
ok a >>= f = f a
err e >>= f = err e
panic >>= f = panic

module _ {ℓ κ} {E : Type ℓ} {A : Type κ} where
  -- A nil pointer, or an index out of range, is a panic.
  abbrev pub deref : Option A → Res E A
  deref none = panic
  deref (some a) = ok a

  -- `xs[i]`
  abbrev pub index : List A → ℕ → Res E A
  index xs i = deref (get_elem? xs i)

  -- `xs[lo:hi]`
  abbrev pub slice : List A → ℕ → ℕ → Res E (List A)
  slice xs lo hi =
      if leb lo hi && leb hi (length xs) then ok (take (hi - lo) (drop lo xs)) else panic

  -- `if err != nil { panic(err) }`
  abbrev pub must : Res E A → Res E A
  must (ok a) = ok a
  must (err e) = panic
  must panic = panic

-- A sequence that returns has a first step that returned.
module _ {ℓ κ μ} {E : Type ℓ} {A : Type κ} {B : Type μ} where
  pub >>=-eq-ok :
      (first : Res E A) (next : A → Res E B) {out : B}
      → (first >>= next) ≡ ok out
      → (mid : A) × (first ≡ ok mid) × (next mid ≡ ok out)
  >>=-eq-ok panic next h = cc
  >>=-eq-ok (err e) next h = cc
  >>=-eq-ok (ok mid) next h = (mid, refl, h)
