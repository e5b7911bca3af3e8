-- ===== src/Collector/Feed/Keys.antt =====
-- The keys of the connections that the collector tracks, and the history under each.
use micro_trace.Common.{
  ℕ, String, Bool, true, false, not, ◌&&◌, List, [], ◌∷◌, select, str_eq, eq_iff, if◌then◌else◌,
  ◌≡◌, refl, arith, Bool-cases, inl, inr, subst,
}
use micro_trace.Common.Arith.{Arith}
use micro_trace.Common.Key.{edge_key, edge_key_inj, NoArrow}
use micro_trace.Types.{HistoryPoint}
use micro_trace.Collector.Feed.{Conn, key_of, touch}
use micro_trace.Collector.Feed.Page.{has_key}

module _ {A : Arith} where
  abbrev pub history_of : String → List (Conn A) → List (HistoryPoint A)
  history_of k [] = []
  history_of k (c ∷ cs) = if str_eq (key_of c) k then c.history else history_of k cs

  pub history_of_first :
      (k : String) (c : Conn A) (cs : List (Conn A))
      → str_eq (key_of c) k ≡ true
      → history_of k (c ∷ cs) ≡ c.history
  history_of_first k c cs h = rw h refl

  pub history_of_rest :
      (k : String) (c : Conn A) (cs : List (Conn A))
      → str_eq (key_of c) k ≡ false
      → history_of k (c ∷ cs) ≡ history_of k cs
  history_of_rest k c cs h = rw h refl

  -- No key stands twice, and no source's name holds an arrow.
  abbrev pub AreKeyed : List (Conn A) → Type 0
  AreKeyed [] = Unit
  AreKeyed (c ∷ cs) = (has_key (key_of c) cs ≡ false) × NoArrow c.src × AreKeyed cs

  pub history_of-touch :
      (k src dst : String) (now : ℕ) (cs : List (Conn A))
      → history_of k (touch src dst now cs) ≡ history_of k cs
  unfolding touch key_of
  history_of-touch k src dst now [] = ground arith
  history_of-touch k src dst now (c ∷ cs) = ground (arith, history_of-touch k src dst now cs)

  pub history_of_absent :
      (k : String) (cs : List (Conn A)) → has_key k cs ≡ false → history_of k cs ≡ []
  history_of_absent k [] h = refl
  history_of_absent k (c ∷ cs) h = ground (arith, history_of_absent k cs)

  has_key-touch_ne :
      (k src dst : String) (now : ℕ) (cs : List (Conn A))
      → str_eq (edge_key src dst) k ≡ false
      → has_key k cs ≡ false
      → has_key k (touch src dst now cs) ≡ false
  unfolding touch key_of
  has_key-touch_ne k src dst now [] e h = ground arith
  has_key-touch_ne k src dst now (c ∷ cs) e h = ground (arith, has_key-touch_ne k src dst now cs e)

  -- Two connections that differ have different keys.
  keys_differ :
      (src dst : String) (c : Conn A)
      → NoArrow src
      → NoArrow c.src
      → (str_eq c.src src && str_eq c.dst dst) ≡ false
      → str_eq (edge_key src dst) (key_of c) ≡ false
  unfolding key_of
  keys_differ src dst c p q e =
      elim (Bool-cases (str_eq (edge_key src dst) (edge_key c.src c.dst))) [
        | inl same ↦
            let (a, b) =
              edge_key_inj src dst c.src c.dst p q
                ((eq_iff (edge_key src dst) (edge_key c.src c.dst)).0 same) in
            ground (arith, eq_iff c.src src, eq_iff c.dst dst, a, b)
        | inr differ ↦ differ
      ]

  pub touch-AreKeyed :
      (src dst : String) (now : ℕ) (cs : List (Conn A))
      → NoArrow src
      → AreKeyed cs
      → AreKeyed (touch src dst now cs)
  unfolding touch key_of
  touch-AreKeyed src dst now [] p h = (refl, p, tt)
  touch-AreKeyed src dst now (c ∷ cs) p (fresh, q, h) =
      elim (Bool-cases (str_eq c.src src && str_eq c.dst dst)) [
        | inl same ↦ rw same (fresh, q, h)
        | inr other ↦ rw other (
          has_key-touch_ne (key_of c) src dst now cs (keys_differ src dst c p q other) fresh,
          q,
          touch-AreKeyed src dst now cs p h,
        )
      ]

  has_key-select_le :
      (k : String) (p : Conn A → Bool) (cs : List (Conn A))
      → has_key k cs ≡ false
      → has_key k (select p cs) ≡ false
  has_key-select_le k p [] h = refl
  has_key-select_le k p (c ∷ cs) h = ground (arith, has_key-select_le k p cs)

  pub select-AreKeyed :
      (p : Conn A → Bool) (cs : List (Conn A)) → AreKeyed cs → AreKeyed (select p cs)
  select-AreKeyed p [] h = tt
  select-AreKeyed p (c ∷ cs) (fresh, q, h) =
      ground (arith, has_key-select_le (key_of c) p cs fresh, select-AreKeyed p cs h)

  -- Of distinct keys, those that are taken out lose their history, and the others keep it.
  pub history_of-select :
      (k : String) (p : Conn A → Bool) (cs : List (Conn A))
      → AreKeyed cs
      → history_of k (select (λ c. not (p c)) cs)
        ≡ (if has_key k (select p cs) then [] else history_of k cs)
  history_of-select k p [] h = refl
  history_of-select k p (c ∷ cs) (fresh, q, h) = elim (Bool-cases (str_eq (key_of c) k)) [
    | inl here ↦
        let absent : has_key k cs ≡ false =
          subst (λ j. has_key j cs ≡ false) ((eq_iff (key_of c) k).0 here) fresh in
        ground (
          arith,
          here,
          history_of-select k p cs h,
          has_key-select_le k p cs absent,
          history_of_absent k cs absent,
        )
    | inr there ↦ ground (arith, there, history_of-select k p cs h)
  ]

  -- The key of the first of several connections is none of the others'.
  pub absent :
      (k : String) (c : Conn A) (cs : List (Conn A))
      → AreKeyed (c ∷ cs)
      → str_eq (key_of c) k ≡ true
      → has_key k cs ≡ false
  absent k c cs (fresh, _, _) here =
      subst (λ j. has_key j cs ≡ false) ((eq_iff (key_of c) k).0 here) fresh
