-- ===== src/Collector/Hub/Written.antt =====
-- What is written to one client.
use micro_trace.Common.{
  ℕ, ltb, ◌==◌, Bool, true, false, Option, none, some, List, [], ◌∷◌, ◌++◌, ◌≡◌, refl, sym, ap, ◌∙◌,
  ◌<◌, append_snoc, arith, Bool-cases, inl, inr,
}
use micro_trace.Collector.Hub.{Client, write_to, on_client, close}

pub append_assoc : {T : Type 0} (xs ys zs : List T) → (xs ++ ys) ++ zs ≡ xs ++ (ys ++ zs)
append_assoc [] ys zs = refl
append_assoc (x ∷ xs) ys zs = ap (λ ws. x ∷ ws) (append_assoc xs ys zs)

false-ne-true : false ≡ true → ⊥
false-ne-true h = cc

pub ltb_lt : {m n : ℕ} → ltb m n ≡ true → m < n
ltb_lt h = ground arith

pub eq_same : (n : ℕ) → (n == n) ≡ true
eq_same n = ground arith

module _ {Data : Type 0} where
  -- What a client was sent, with what waits.
  abbrev pub HasAll : List Data → List Data → Option (Client Data) → Type 0
  HasAll all waiting none = Unit
  HasAll all waiting (some c) = c.registered ≡ true → (c.got ++ waiting) ≡ all

  pub HasAll-append :
      (all waiting new : List Data) (o : Option (Client Data))
      → HasAll all waiting o
      → HasAll (all ++ new) (waiting ++ new) o
  HasAll-append all waiting new none h = tt
  HasAll-append all waiting new (some c) h =
      λ r. sym (append_assoc c.got waiting new) ∙ ap (λ xs. xs ++ new) (h r)

  pub HasAll-write_to :
      (all rest : List Data) (text : Data) (fails : Bool) (o : Option (Client Data))
      → HasAll all (text ∷ rest) o
      → HasAll all rest (on_client (write_to fails text) o)
  HasAll-write_to all rest text fails none h = tt
  HasAll-write_to all rest text true (some c) h = elim (Bool-cases c.registered) [
    | inl on ↦ simp on (λ r. absurd (false-ne-true r))
    | inr off ↦ simp off (λ r. absurd (false-ne-true r))
  ]
  HasAll-write_to all rest text false (some c) h = elim (Bool-cases c.registered) [
    | inl on ↦ simp on (λ r. append_snoc c.got text rest ∙ h on)
    | inr off ↦ simp off (λ r. absurd (false-ne-true r))
  ]

  pub HasAll-close :
      (all waiting : List Data) (o : Option (Client Data))
      → HasAll all waiting o
      → HasAll all waiting (on_client close o)
  HasAll-close all waiting none h = tt
  HasAll-close all waiting (some c) h = elim (Bool-cases c.once) [
    | inl done ↦ simp done h
    | inr first ↦ simp first (λ r. absurd (false-ne-true r))
  ]
