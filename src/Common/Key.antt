-- ===== src/Common/Key.antt =====
-- The key of a connection, `${src}→${dst}`.
use Prim.Native.Char.{Char}
use Prim.Native.String.{String, [], ◌∷◌, ◌++◌}
use mathlib.Core.Path.{◌≡◌, refl, ap}
use mathlib.Core.Bool.{Bool, true, false}
use mathlib.Core.Logic.{◌≢◌}
use native.Mathlib.Omega.{arith}
use text.Mathlib.TextLemmas.{nil-append, cons-append}

unfoldable pub edge_key : String → String → String
edge_key src dst = src ++ "→" ++ dst

abbrev arrow : Char
arrow = "→"

-- No arrow stands in the text.
abbrev pub NoArrow : String → Type 0
NoArrow [] = Unit
NoArrow (c ∷ s) = (c ≢ arrow) × NoArrow s

split_inj :
    (a b c d : String)
    → NoArrow a
    → NoArrow c
    → a ++ (arrow ∷ b) ≡ c ++ (arrow ∷ d)
    → (a ≡ c) × (b ≡ d)
split_inj [] b [] d p q e = ground (arith, nil-append (arrow ∷ b), nil-append (arrow ∷ d))
split_inj [] b (y ∷ c) d p (q, _) e =
    absurd (q (cc (nil-append (arrow ∷ b), cons-append y c (arrow ∷ d))))
split_inj (x ∷ a) b [] d (p, _) q e =
    absurd (p (cc (nil-append (arrow ∷ d), cons-append x a (arrow ∷ b))))
split_inj (x ∷ a) b (y ∷ c) d (_, p) (_, q) e =
    let (same, rest) =
      split_inj a b c d p q (cc (cons-append x a (arrow ∷ b), cons-append y c (arrow ∷ d))) in
    (cc (same, cons-append x a (arrow ∷ b), cons-append y c (arrow ∷ d)), rest)

edge_key_split : (a b : String) → edge_key a b ≡ a ++ (arrow ∷ b)
unfolding edge_key
edge_key_split a b = rw (cons-append arrow "" b, nil-append b)

is_nil : String → Bool
is_nil [] = true
is_nil (c ∷ s) = false

is_nil-append : (a b : String) → is_nil (a ++ (arrow ∷ b)) ≡ false
unfolding is_nil
is_nil-append [] b = rw (nil-append (arrow ∷ b)) refl
is_nil-append (x ∷ a) b = rw (cons-append x a (arrow ∷ b)) refl

pub edge_key_ne_empty : (a b : String) → edge_key a b ≢ ""
unfolding is_nil
edge_key_ne_empty a b e =
    let blank : a ++ (arrow ∷ b) ≡ "" = cc (edge_key_split a b, e) in
    ground (arith, is_nil-append a b, ap is_nil blank)

-- Two connections with the same key have the same source and the same target, where no source's name holds an arrow.
pub edge_key_inj :
    (a b c d : String) → NoArrow a → NoArrow c → edge_key a b ≡ edge_key c d → (a ≡ c) × (b ≡ d)
edge_key_inj a b c d p q e = split_inj a b c d p q (cc (edge_key_split a b, edge_key_split c d))
