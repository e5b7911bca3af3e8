-- ===== src/Collector/Ring.antt =====
-- The ring buffer of collector/stats/stats.go: `addRTT`, `addJitter`, `latestJitter`, and the samples that `percentiles` copies.
use micro_trace.Common.{
  append_nil, append_snoc, subst, ℕ, zero, suc, ◌+◌, ◌-◌, ◌%◌, ◌<◌, ◌≤◌, ltb, ◌==◌, List, [], ◌∷◌,
  ◌++◌, length, drop, take_last, if◌then◌else◌, ◌≡◌, ◌≢◌, refl, sym, ap, ◌∙◌, arith, Bool-cases,
  inl, inr, take_last-append, drop-append, length-append,
}

abbrev pub ring_size : ℕ
ring_size = 1000

-- `ring`, `head` and `count`; an array is a function of the index.
pub record Ring : Type 0 where
  pub cells : ℕ → ℕ
  pub head : ℕ
  pub count : ℕ

abbrev pub empty : Ring
empty = record { cells = λ i. 0; head = 0; count = 0 }

unfoldable pub write : ℕ → ℕ → (ℕ → ℕ) → ℕ → ℕ
write i us cells j = if j == i then us else cells j

unfoldable pub add : ℕ → Ring → Ring
add us r = record {
  cells = write r.head us r.cells;
  head = (r.head + 1) % ring_size;
  count = if ltb r.count ring_size then r.count + 1 else r.count;
}

-- `f 0`, …, `f (n - 1)`
abbrev build : ℕ → (ℕ → ℕ) → List ℕ
build zero f = []
build (suc n) f = f 0 ∷ build n (λ i. f (suc i))

-- `(s.head - s.count + i + rttRingSize) % rttRingSize`, where `int` goes below 0 on the way
abbrev slot : Ring → ℕ → ℕ
slot r i = (r.head + ring_size - r.count + i) % ring_size

-- The copy of the samples that are there, from the oldest on.
unfoldable pub samples : Ring → List ℕ
samples r = build r.count (λ i. r.cells (slot r i))

-- `latestJitter`, and `latestUs` of `publishSnapshots`
unfoldable pub latest : Ring → ℕ
latest r = if ltb 0 r.count then r.cells ((r.head + ring_size - 1) % ring_size) else 0

unfoldable pub add_all : List ℕ → Ring → Ring
unfolding add
add_all [] r = r
add_all (us ∷ rest) r = add_all rest (add us r)

build-ext : (n : ℕ) (f g : ℕ → ℕ) → ((i : ℕ) → i < n → f i ≡ g i) → build n f ≡ build n g
build-ext zero f g h = refl
build-ext (suc n) f g h = rw (h 0 (omega arith)) (
    ap (λ r. g 0 ∷ r)
      (build-ext n (λ i. f (suc i)) (λ i. g (suc i)) (λ i k. h (suc i) (omega arith))))

build-snoc : (n : ℕ) (f : ℕ → ℕ) → build (suc n) f ≡ build n f ++ f n ∷ []
build-snoc zero f = refl
build-snoc (suc n) f = ap (λ r. f 0 ∷ r) (build-snoc n (λ i. f (suc i)))

length-build : (n : ℕ) (f : ℕ → ℕ) → length (build n f) ≡ n
length-build zero f = refl
length-build (suc n) f = ap suc (length-build n (λ i. f (suc i)))

abbrev pub IsRing : Ring → Type 0
IsRing r = (r.head < ring_size) × (r.count ≤ ring_size)

pub add-IsRing : (us : ℕ) (r : Ring) → IsRing r → IsRing (add us r)
unfolding add
add-IsRing us r (h, c) = (omega arith, ground arith)

slot_grow :
    (h c i : ℕ)
    → h < 1000
    → c < 1000
    → i ≤ c
    → ((h + 1) % 1000 + 1000 - suc c + i) % 1000 ≡ (h + 1000 - c + i) % 1000
slot_grow h c i p q k = omega arith

slot_full :
    (h n i : ℕ)
    → h < 1000
    → suc n ≡ 1000
    → ((h + 1) % 1000 + 1000 - suc n + i) % 1000 ≡ (h + 1000 - suc n + suc i) % 1000
slot_full h n i p m = omega (arith, m)

slot_ne : (h c i : ℕ) → h < 1000 → c ≤ 1000 → i < c → c < 1000 → (h + 1000 - c + i) % 1000 ≢ h
slot_ne h c i p q k l = λ e. omega (arith, e)

write_eq : (i us : ℕ) (cells : ℕ → ℕ) (j : ℕ) → j ≡ i → write i us cells j ≡ us
unfolding write
write_eq i us cells j e = ground (arith, e)

write_ne : (i us : ℕ) (cells : ℕ → ℕ) (j : ℕ) → j ≢ i → write i us cells j ≡ cells j
unfolding write
write_ne i us cells j e = ground (arith, e)

slot_last : (h c : ℕ) → h < 1000 → c < 1000 → ((h + 1) % 1000 + 1000 - suc c + c) % 1000 ≡ h
slot_last h c p q = omega arith

slot_wrap : (h n : ℕ) → h < 1000 → suc n ≡ 1000 → ((h + 1) % 1000 + 1000 - suc n + n) % 1000 ≡ h
slot_wrap h n p m = omega (arith, m)

slot_off : (h n i : ℕ) → h < 1000 → suc n ≡ 1000 → i < n → (h + 1000 - suc n + suc i) % 1000 ≢ h
slot_off h n i p m q = λ e. omega (arith, m, e)

-- While the buffer is not full, a new sample joins the others.
samples_grow :
    (us : ℕ) (r : Ring) → IsRing r → r.count < ring_size → samples (add us r) ≡ samples r ++ us ∷ []
unfolding samples add
samples_grow us r (h, c) k =
    let e : (if ltb r.count ring_size then r.count + 1 else r.count) ≡ suc r.count =
      ground (arith, k) in
    let f : ℕ → ℕ =
      λ i. write r.head us r.cells (((r.head + 1) % 1000 + 1000 - suc r.count + i) % 1000) in
    let old : build r.count f ≡ samples r =
      build-ext r.count f (λ i. r.cells (slot r i))
        (λ i q.
          ap (write r.head us r.cells) (slot_grow r.head r.count i h k (omega arith))
          ∙ write_ne r.head us r.cells (slot r i) (slot_ne r.head r.count i h c q k)) in
    let new : f r.count ≡ us = write_eq r.head us r.cells _ (slot_last r.head r.count h k) in
    rw e (
      build-snoc r.count f
      ∙ ap (λ xs. xs ++ f r.count ∷ []) old
      ∙ ap (λ y. samples r ++ y ∷ []) new)

-- Once it is full, a new sample takes the place of the oldest.
samples_full :
    (us n : ℕ) (r : Ring)
    → IsRing r
    → r.count ≡ suc n
    → suc n ≡ ring_size
    → samples (add us r) ≡ drop 1 (samples r) ++ us ∷ []
unfolding samples add
samples_full us n r (h, c) k m =
    let e : (if ltb r.count ring_size then r.count + 1 else r.count) ≡ suc n =
      ground (arith, k, m) in
    let f : ℕ → ℕ =
      λ i. write r.head us r.cells (((r.head + 1) % 1000 + 1000 - suc n + i) % 1000) in
    let g : ℕ → ℕ = λ i. r.cells ((r.head + 1000 - suc n + i) % 1000) in
    let old : build n f ≡ build n (λ i. g (suc i)) =
      build-ext n f (λ i. g (suc i))
        (λ i q.
          ap (write r.head us r.cells) (slot_full r.head n i h m)
          ∙ write_ne r.head us r.cells _ (slot_off r.head n i h m q)) in
    let tail : build n (λ i. g (suc i)) ≡ drop 1 (samples r) = rw k refl in
    let new : f n ≡ us = write_eq r.head us r.cells _ (slot_wrap r.head n h m) in
    rw e (
      build-snoc n f
      ∙ ap (λ xs. xs ++ f n ∷ []) (old ∙ tail)
      ∙ ap (λ y. drop 1 (samples r) ++ y ∷ []) new)

pub length-samples : (r : Ring) → length (samples r) ≡ r.count
unfolding samples
length-samples r = length-build r.count (λ i. r.cells (slot r i))

take_last_short : (xs : List ℕ) → length xs ≤ ring_size → take_last ring_size xs ≡ xs
take_last_short xs h =
    let none_dropped : length xs - ring_size ≡ 0 = omega arith in ap (λ k. drop k xs) none_dropped

short :
    (us : ℕ) (r : Ring)
    → r.count ≤ ring_size
    → r.count < ring_size
    → length (samples r ++ us ∷ []) ≤ ring_size
short us r c k = omega (arith, length-append (samples r) (us ∷ []), length-samples r)

slide :
    (us : ℕ) (r : Ring)
    → r.count ≡ ring_size
    → drop 1 (samples r) ++ us ∷ [] ≡ take_last ring_size (samples r ++ us ∷ [])
slide us r k =
    let one : length (samples r ++ us ∷ []) - ring_size ≡ 1 =
      omega (arith, length-append (samples r) (us ∷ []), length-samples r) in
    drop-append 1 (samples r) (us ∷ []) (omega (arith, length-samples r))
    ∙ ap (λ j. drop j (samples r ++ us ∷ [])) (sym one)

-- A new sample slides the window of the last thousand on by one.
samples-add :
    (us : ℕ) (r : Ring) → IsRing r → samples (add us r) ≡ take_last ring_size (samples r ++ us ∷ [])
samples-add us r (h, c) = elim (Bool-cases (ltb r.count ring_size)) [
  | inl e ↦
      samples_grow us r (h, c) (ground (arith, e))
      ∙ sym (take_last_short _ (short us r c (ground (arith, e))))
  | inr e ↦ samples_full us 999 r (h, c) (ground (arith, e)) refl ∙ slide us r (ground (arith, e))
]

abbrev pub IsWindow : List ℕ → Ring → Type 0
IsWindow us r = IsRing r × (samples r ≡ take_last ring_size us)

pub add-IsWindow :
    (us : List ℕ) (x : ℕ) (r : Ring) → IsWindow us r → IsWindow (us ++ x ∷ []) (add x r)
add-IsWindow us x r (h, e) = (
  add-IsRing x r h,
  samples-add x r h
      ∙ ap (λ xs. take_last ring_size (xs ++ x ∷ [])) e
      ∙ take_last-append ring_size us (x ∷ []),
)

add_all-IsWindow : (us xs : List ℕ) (r : Ring) → IsWindow us r → IsWindow (us ++ xs) (add_all xs r)
unfolding add_all
add_all-IsWindow us [] r h = subst (λ ys. IsWindow ys r) (sym (append_nil us)) h
add_all-IsWindow us (x ∷ xs) r h =
    subst (λ ys. IsWindow ys (add_all xs (add x r))) (append_snoc us x xs)
      (add_all-IsWindow (us ++ x ∷ []) xs (add x r) (add-IsWindow us x r h))

pub empty-IsWindow : IsWindow [] empty
unfolding samples
empty-IsWindow = ((omega arith, omega arith), refl)

-- Whatever round trip times were added to a connection, its ring buffer holds the last thousand of them, from the oldest to the
-- newest.
pub samples-add_all : (us : List ℕ) → samples (add_all us empty) ≡ take_last ring_size us
samples-add_all us = (add_all-IsWindow [] us empty empty-IsWindow).1
