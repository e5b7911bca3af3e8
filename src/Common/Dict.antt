-- ===== src/Common/Dict.antt =====
-- A JavaScript object used as a dictionary: its entries in insertion order. A write to a key that is
-- there keeps its place, and `delete` removes the entry. (The language enumerates keys that spell array indices before
-- all others; the order of `entries` differs from the engine's for such keys alone.)
use micro_trace.Common.Tests.{if◌then◌else◌}
use Prim.Native.String.{String}
use text.Mathlib.Text.{◌==◌}
use text.Mathlib.TextEquality.{eq_iff}
use text.Mathlib.TextPositions.{eq_refl}
use mathlib.Core.Path.{◌≡◌, refl}
use mathlib.Core.Logic.{◌≢◌}
use mathlib.Core.Option.{Option, none, some}
use mathlib.Core.List.{List, [], ◌∷◌, ◌++◌}
use native.Mathlib.Omega.{arith}

abbrev pub Dict {ℓ} : Type ℓ → Type ℓ
Dict V = List (String × V)

module _ {ℓ} {V : Type ℓ} where
  -- `d[k]`
  unfoldable pub lookup : String → Dict V → Option V
  lookup k [] = none
  lookup k ((j, v) ∷ d) = if j == k then some v else lookup k d

  -- `{ ...d, [k]: v }`
  unfoldable pub insert : String → V → Dict V → Dict V
  insert k v [] = (k, v) ∷ []
  insert k v ((j, w) ∷ d) = if j == k then (j, v) ∷ d else (j, w) ∷ insert k v d

  -- `const n = { ...d }; delete n[k]`
  unfoldable pub erase : String → Dict V → Dict V
  erase k [] = []
  erase k ((j, w) ∷ d) = if j == k then erase k d else (j, w) ∷ erase k d

  -- `Object.values(d)`
  unfoldable pub values : Dict V → List V
  values [] = []
  values ((j, v) ∷ d) = v ∷ values d

  pub lookup-insert :
      (k j : String) (v : V) (d : Dict V)
      → lookup j (insert k v d) ≡ (if k == j then some v else lookup j d)
  unfolding lookup insert
  lookup-insert k j v [] = refl
  lookup-insert k j v ((i, w) ∷ d) =
      ground (arith, eq_iff k j, eq_iff i k, eq_iff i j, lookup-insert k j v d)

  pub lookup-insert_self : (k : String) (v : V) (d : Dict V) → lookup k (insert k v d) ≡ some v
  lookup-insert_self k v d = simp (lookup-insert, eq_refl)

  pub lookup-insert_ne :
      (k j : String) (v : V) (d : Dict V) → k ≢ j → lookup j (insert k v d) ≡ lookup j d
  lookup-insert_ne k j v d h = ground (arith, lookup-insert k j v d, eq_iff k j)

  pub lookup-erase :
      (k j : String) (d : Dict V) → lookup j (erase k d) ≡ (if k == j then none else lookup j d)
  unfolding lookup erase
  lookup-erase k j [] = ground arith
  lookup-erase k j ((i, w) ∷ d) =
      ground (arith, eq_iff k j, eq_iff i k, eq_iff i j, lookup-erase k j d)

  -- What holds of every entry of the dictionary.
  abbrev pub AllEntries {κ} : (String → V → Type κ) → Dict V → Type κ
  AllEntries P [] = Unit
  AllEntries P ((j, v) ∷ d) = P j v × AllEntries P d

  pub AllEntries-insert {κ} :
      (P : String → V → Type κ) (k : String) (v : V) (d : Dict V)
      → P k v
      → AllEntries P d
      → AllEntries P (insert k v d)
  unfolding insert
  AllEntries-insert P k v [] p h = (p, tt)
  AllEntries-insert P k v ((j, w) ∷ d) p (q, h) =
      ground (arith, eq_iff j k, AllEntries-insert P k v d p h)

  pub AllEntries-erase {κ} :
      (P : String → V → Type κ) (k : String) (d : Dict V)
      → AllEntries P d
      → AllEntries P (erase k d)
  unfolding erase
  AllEntries-erase P k [] h = tt
  AllEntries-erase P k ((j, w) ∷ d) (q, h) = ground (arith, AllEntries-erase P k d h)

  pub AllEntries-lookup {κ} :
      (P : String → V → Type κ) (k : String) (d : Dict V) (v : V)
      → AllEntries P d
      → lookup k d ≡ some v
      → P k v
  unfolding lookup
  AllEntries-lookup P k [] v h e = cc
  AllEntries-lookup P k ((j, w) ∷ d) v (q, h) e =
      ground (arith, eq_iff j k, AllEntries-lookup P k d v h)

  -- Every key stands once, as in any dictionary that was built by writes.
  abbrev pub IsFresh : String → Dict V → Type 0
  IsFresh k [] = Unit
  IsFresh k ((j, v) ∷ d) = (j ≢ k) × IsFresh k d

  abbrev pub HasUniqueKeys : Dict V → Type 0
  HasUniqueKeys [] = Unit
  HasUniqueKeys ((j, v) ∷ d) = IsFresh j d × HasUniqueKeys d

  IsFresh-insert :
      (j k : String) (v : V) (d : Dict V) → k ≢ j → IsFresh j d → IsFresh j (insert k v d)
  unfolding insert
  IsFresh-insert j k v [] h f = (h, tt)
  IsFresh-insert j k v ((i, w) ∷ d) h (n, f) = ground (arith, IsFresh-insert j k v d h f)

  pub HasUniqueKeys-insert :
      (k : String) (v : V) (d : Dict V) → HasUniqueKeys d → HasUniqueKeys (insert k v d)
  unfolding insert
  HasUniqueKeys-insert k v [] u = (tt, tt)
  HasUniqueKeys-insert k v ((j, w) ∷ d) (f, u) =
      ground
        (arith, eq_iff j k, HasUniqueKeys-insert k v d u, λ (h : k ≢ j). IsFresh-insert j k v d h f)

  IsFresh-erase : (j k : String) (d : Dict V) → IsFresh j d → IsFresh j (erase k d)
  unfolding erase
  IsFresh-erase j k [] f = tt
  IsFresh-erase j k ((i, w) ∷ d) (n, f) = ground (arith, IsFresh-erase j k d f)

  pub HasUniqueKeys-erase : (k : String) (d : Dict V) → HasUniqueKeys d → HasUniqueKeys (erase k d)
  unfolding erase
  HasUniqueKeys-erase k [] u = tt
  HasUniqueKeys-erase k ((j, w) ∷ d) (f, u) =
      ground (arith, HasUniqueKeys-erase k d u, IsFresh-erase j k d f)

  pub lookup_of_IsFresh : (k : String) (d : Dict V) → IsFresh k d → lookup k d ≡ none
  unfolding lookup
  lookup_of_IsFresh k [] f = refl
  lookup_of_IsFresh k ((j, v) ∷ d) (n, f) = ground (arith, eq_iff j k, lookup_of_IsFresh k d f)

pub AllEntries-snoc :
    {V : Type 0} (P : String → V → Type 0) (d : Dict V) (k : String) (v : V)
    → AllEntries P d
    → P k v
    → AllEntries P (d ++ (k, v) ∷ [])
AllEntries-snoc P [] k v h p = (p, tt)
AllEntries-snoc P ((j, u) ∷ d) k v (q, h) p = (q, AllEntries-snoc P d k v h p)
