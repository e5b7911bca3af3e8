-- ===== src/Common/Sort.antt =====
-- `Array.prototype.sort` with a comparison function: a stable sort. `before y x` says that the comparison
-- of `y` with `x` is negative, so that `y` must stand before `x`.
use micro_trace.Common.Tests.{if◌then◌else◌, Bool-cases}
use Prim.Native.Nat.{suc}
use micro_trace.Common.Lists.{length}
use mathlib.Core.Path.{◌≡◌, refl, ap, ◌∙◌}
use mathlib.Core.Logic.{inl, inr}
use mathlib.Core.Bool.{Bool, true, false}
use mathlib.Core.List.{List, [], ◌∷◌, Perm}
use mathlib.Core.List.Perm
use native.Mathlib.Omega.{arith}

module _ {ℓ} {A : Type ℓ} (before : A → A → Bool) where
  -- `x` comes from further left than all of `xs`, and stays there among equals
  unfoldable pub place : A → List A → List A
  place x [] = x ∷ []
  place x (y ∷ ys) = if before y x then y ∷ place x ys else x ∷ y ∷ ys

  unfoldable pub sort : List A → List A
  unfolding place
  sort [] = []
  sort (x ∷ xs) = place x (sort xs)

  place-perm : (x : A) (ys : List A) → Perm (place x ys) (x ∷ ys)
  unfolding place
  place-perm x [] = Perm.refl _
  place-perm x (y ∷ ys) = elim (Bool-cases (before y x)) [
    | inl e ↦ rw e (Perm.trans (Perm.cons y (place-perm x ys)) (Perm.swap x y ys))
    | inr e ↦ rw e (Perm.refl _)
  ]

  pub sort-perm : (xs : List A) → Perm (sort xs) xs
  unfolding sort
  sort-perm [] = Perm.refl _
  sort-perm (x ∷ xs) = Perm.trans (place-perm x (sort xs)) (Perm.cons x (sort-perm xs))

  length-place : (x : A) (ys : List A) → length (place x ys) ≡ suc (length ys)
  unfolding place
  length-place x [] = refl
  length-place x (y ∷ ys) = ground (arith, length-place x ys)

  pub length-sort : (xs : List A) → length (sort xs) ≡ length xs
  unfolding sort
  length-sort [] = refl
  length-sort (x ∷ xs) = length-place x (sort xs) ∙ ap suc (length-sort xs)

  -- No later element must stand before an earlier one.
  abbrev pub Above : A → List A → Type 0
  Above x [] = Unit
  Above x (y ∷ ys) = (before y x ≡ false) × Above x ys

  abbrev pub IsSorted : List A → Type 0
  IsSorted [] = Unit
  IsSorted (x ∷ xs) = Above x xs × IsSorted xs

  -- What a comparison function must give: it never puts each of two before the other, and "not before" is
  -- transitive.
  pub record IsConsistent : Type ℓ where
    pub asymm : (a b : A) → before a b ≡ true → before b a ≡ false
    pub ge_trans : (a b c : A) → before a b ≡ false → before b c ≡ false → before a c ≡ false

module _ {ℓ} {A : Type ℓ} (before : A → A → Bool) (c : IsConsistent before) where
  Above-place :
      (y x : A) (ys : List A)
      → before x y ≡ false
      → Above before y ys
      → Above before y (place before x ys)
  unfolding place
  Above-place y x [] h k = (h, tt)
  Above-place y x (z ∷ zs) h (p, k) = ground (arith, Above-place y x zs h k)

  Above-trans : (x y : A) (ys : List A) → before y x ≡ false → Above before y ys → Above before x ys
  Above-trans x y [] h k = tt
  Above-trans x y (z ∷ zs) h (p, k) = (c.ge_trans z y x p h, Above-trans x y zs h k)

  place-IsSorted : (x : A) (ys : List A) → IsSorted before ys → IsSorted before (place before x ys)
  unfolding place
  place-IsSorted x [] s = (tt, tt)
  place-IsSorted x (y ∷ ys) (a, s) = elim (Bool-cases (before y x)) [
    | inl e ↦ rw e (Above-place y x ys (c.asymm y x e) a, place-IsSorted x ys s)
    | inr e ↦ rw e ((e, Above-trans x y ys e a), (a, s))
  ]

  pub sort-IsSorted : (xs : List A) → IsSorted before (sort before xs)
  unfolding sort
  sort-IsSorted [] = tt
  sort-IsSorted (x ∷ xs) = place-IsSorted x (sort before xs) (sort-IsSorted xs)
