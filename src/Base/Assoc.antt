-- ===== src/Base/Assoc.antt =====
-- Go maps as association lists. The order of the list stands for the order in which `range` visits
-- the keys, which Go leaves open.
use mathlib.Core.Path.{◌≡◌, refl}
use mathlib.Core.Option.{Option, none, some}
use mathlib.Core.List.{List, [], ◌∷◌}
use native.Mathlib.Omega.{arith}
use yukino_go.Base.Tests.{if◌then◌else◌}
use yukino_go.Base.Equality.{Eq}

module _ {ℓ κ} {K : Type ℓ} {V : Type κ} ⦃d : Eq K⦄ where
  -- `m[key]`
  abbrev pub lookup : K → List (K × V) → Option V
  lookup key [] = none
  lookup key ((first, val) ∷ others) = if d.same_key first key then some val else lookup key others

  -- `m[key] = val`
  abbrev pub insert : K → V → List (K × V) → List (K × V)
  insert key val [] = (key, val) ∷ []
  insert key val ((first, old) ∷ others) =
      let below = insert key val others in
      if d.same_key first key then (key, val) ∷ others else (first, old) ∷ below

  -- `delete(m, key)`
  abbrev pub delete : K → List (K × V) → List (K × V)
  delete key [] = []
  delete key ((first, old) ∷ others) =
      let below = delete key others in if d.same_key first key then below else (first, old) ∷ below

  pub lookup-insert :
      (key other : K) (val : V) (entries : List (K × V))
      → lookup other (insert key val entries)
        ≡ (if d.same_key key other then some val else lookup other entries)
  lookup-insert key other val [] = refl
  lookup-insert key other val ((first, old) ∷ others) = ground (
    arith,
    d.same_key_iff first key,
    d.same_key_iff first other,
    d.same_key_iff key other,
    lookup-insert key other val others,
  )

  pub lookup-delete :
      (key other : K) (entries : List (K × V))
      → lookup other (delete key entries)
        ≡ (if d.same_key key other then none else lookup other entries)
  lookup-delete key other [] = ground arith
  lookup-delete key other ((first, old) ∷ others) = ground (
    arith,
    d.same_key_iff first key,
    d.same_key_iff first other,
    d.same_key_iff key other,
    lookup-delete key other others,
  )
