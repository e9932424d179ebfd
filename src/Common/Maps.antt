-- ===== src/Common/Maps.antt =====
-- Go maps as functions, over a Boolean test of the keys; `none` is a missing key. Go strings as
-- lists of bytes.
use Prim.Native.Nat.{ℕ}
use mathlib.Core.Path.{◌≡◌, refl}
use mathlib.Core.Bool.{Bool, true, false, ◌&&◌}
use mathlib.Core.Option.{Option, none, some}
use mathlib.Core.List.{List, [], ◌∷◌}
use native.Mathlib.Omega.{arith}
use spring.Common.Tests.{◌==◌, if◌then◌else◌}

abbrev pub Bytes : Type 0
Bytes = List ℕ

abbrev pub same : Bytes → Bytes → Bool
same [] [] = true
same [] (y ∷ ys) = false
same (x ∷ xs) [] = false
same (x ∷ xs) (y ∷ ys) = (x == y) && same xs ys

pub same_refl : (xs : Bytes) → same xs xs ≡ true
same_refl [] = refl
same_refl (x ∷ xs) = ground (arith, same_refl xs)

pub same_eq : (xs ys : Bytes) → same xs ys ≡ true → xs ≡ ys
same_eq [] [] h = refl
same_eq [] (y ∷ ys) h = absurd (cc h)
same_eq (x ∷ xs) [] h = absurd (cc h)
same_eq (x ∷ xs) (y ∷ ys) h =
    let es = same_eq xs ys (ground (arith, h)) in let e : x ≡ y = ground (arith, h) in cc (e, es)

module _ {ℓ κ} {K : Type ℓ} {V : Type κ} where
  abbrev pub empty : K → Option V
  empty k = none

  -- `m[k] = v`
  abbrev pub insert : (K → K → Bool) → K → V → (K → Option V) → K → Option V
  insert eq k v m k' = if eq k k' then some v else m k'

  -- `delete(m, k)`
  abbrev pub erase : (K → K → Bool) → K → (K → Option V) → K → Option V
  erase eq k m k' = if eq k k' then none else m k'
