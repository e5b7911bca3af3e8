-- ===== src/Topo/Layout.antt =====
-- Where TopoGraph.tsx puts the services: every service gets a place, and the picture stays within its limits.
use micro_trace.Common.{
  ℕ, ◌+◌, String, true, Option, none, some, List, [], ◌∷◌, length, is_some, if◌then◌else◌, eq_iff,
  ◌≡◌, refl, arith,
}
use micro_trace.Common.Arith.{Arith}
use micro_trace.Common.Dict.{Dict, lookup, insert, lookup-insert}
use micro_trace.Topo.{Graph, Pos, spiral, place_all, place_new}

module _ (A : Arith) (sin cos : A.Num → A.Num) (pi : A.Num) where
  open A use {Num, num, lt, add, sub, mul, div}

  abbrev Kept : Dict (Pos A) → Dict (Pos A) → Type 0
  Kept d e = (k : String) (p : Pos A) → lookup k d ≡ some p → lookup k e ≡ some p

  step-Kept :
      (idx : ℕ) (name : String) (next : Dict (Pos A))
      → Kept next
          (if is_some (lookup name next) then next else insert name (spiral A sin cos pi idx) next)
  step-Kept idx name next k p e =
      ground (arith, lookup-insert name k (spiral A sin cos pi idx) next, eq_iff name k)

  place_all-Kept :
      (idx : ℕ) (names : List String) (next : Dict (Pos A))
      → Kept next (place_all A sin cos pi idx names next)
  unfolding place_all
  place_all-Kept idx [] next k p e = e
  place_all-Kept idx (name ∷ names) next k p e =
      place_all-Kept (if is_some (lookup name next) then idx else idx + 1) names
        (if is_some (lookup name next) then next else insert name (spiral A sin cos pi idx) next) k
        p (step-Kept idx name next k p e)

  -- Every name of the list has a place.
  abbrev pub AllPlaced : List String → Dict (Pos A) → Type 0
  AllPlaced [] d = Unit {0}
  AllPlaced (name ∷ names) d = (is_some (lookup name d) ≡ true) × AllPlaced names d

  is_some-Kept :
      (d e : Dict (Pos A)) (k : String)
      → Kept d e
      → is_some (lookup k d) ≡ true
      → is_some (lookup k e) ≡ true
  is_some-Kept d e k h s = go (lookup k d) refl s
    where
      go : (o : Option (Pos A)) → lookup k d ≡ o → is_some o ≡ true → is_some (lookup k e) ≡ true
      go none p q = cc
      go (some v) p q = rw (h k v p) refl

  step-placed :
      (idx : ℕ) (name : String) (next : Dict (Pos A))
      → is_some (
          lookup name (
            if is_some (lookup name next)
            then next
            else insert name (spiral A sin cos pi idx) next))
        ≡ true
  step-placed idx name next =
      ground (arith, lookup-insert name name (spiral A sin cos pi idx) next, eq_iff name name)

  place_all-AllPlaced :
      (idx : ℕ) (names : List String) (next : Dict (Pos A))
      → AllPlaced names (place_all A sin cos pi idx names next)
  unfolding place_all
  place_all-AllPlaced idx [] next = tt
  place_all-AllPlaced idx (name ∷ names) next =
      let idx' = if is_some (lookup name next) then idx else idx + 1 in
      let next' =
        if is_some (lookup name next) then next else insert name (spiral A sin cos pi idx) next in
      (
        is_some-Kept next' (place_all A sin cos pi idx' names next') name
            (place_all-Kept idx' names next') (step-placed idx name next),
        place_all-AllPlaced idx' names next',
      )

  -- When services appear, each gets a place, and a service k that has a place p keeps it.
  pub place_new-AllPlaced :
      (names : List String) (g : Graph A) (k : String) (p : Pos A)
      → lookup k g.positions ≡ some p
      → AllPlaced names (place_new A sin cos pi names g).positions
        × (lookup k (place_new A sin cos pi names g).positions ≡ some p)
  unfolding place_new
  place_new-AllPlaced names g k p e = (
    place_all-AllPlaced (length g.positions) names g.positions,
    place_all-Kept (length g.positions) names g.positions k p e,
  )
