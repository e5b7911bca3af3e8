-- ===== src/Collector/Rows.antt =====
-- Arrays as lists: a cell written, and what is read of an array from its front.
use micro_trace.Common.{
  ◌<◌, map, ℕ, zero, suc, ◌+◌, ◌≤◌, List, [], ◌∷◌, ◌++◌, length, take, drop, ◌≡◌, refl, ap, arith,
  some, get_elem?,
}

module _ {R : Type 0} where
  unfoldable pub put : ℕ → R → List R → List R
  put i r [] = []
  put zero r (x ∷ xs) = r ∷ xs
  put (suc i) r (x ∷ xs) = x ∷ put i r xs

  pub take-put :
      (n : ℕ) (r : R) (xs : List R)
      → suc n ≤ length xs
      → take (suc n) (put n r xs) ≡ take n xs ++ r ∷ []
  unfolding put
  take-put n r [] h = absurd (omega arith)
  take-put zero r (x ∷ xs) h = refl
  take-put (suc n) r (x ∷ xs) h = ap (λ ys. x ∷ ys) (take-put n r xs (omega arith))

  pub length-put : (n : ℕ) (r : R) (xs : List R) → length (put n r xs) ≡ length xs
  unfolding put
  length-put n r [] = refl
  length-put zero r (x ∷ xs) = refl
  length-put (suc n) r (x ∷ xs) = ap suc (length-put n r xs)

  pub take_grown :
      (n : ℕ) (xs ys : List R) (r : R)
      → n ≤ length xs
      → take (suc n) (take n xs ++ r ∷ ys) ≡ take n xs ++ r ∷ []
  take_grown zero xs ys r h = refl
  take_grown (suc n) [] ys r h = absurd (omega arith)
  take_grown (suc n) (x ∷ xs) ys r h = ap (λ zs. x ∷ zs) (take_grown n xs ys r (omega arith))

  pub read_on :
      (i n : ℕ) (xs : List R)
      → i + suc n ≤ length xs
      → get_elem? xs i ∷ map some (take n (drop (suc i) xs)) ≡ map some (take (suc n) (drop i xs))
  read_on i n [] h = absurd (omega arith)
  read_on zero n (x ∷ xs) h = refl
  read_on (suc i) n (x ∷ xs) h = read_on i n xs (omega arith)

  pub drop-put : (j m : ℕ) (r : R) (xs : List R) → j < m → drop m (put j r xs) ≡ drop m xs
  unfolding put
  drop-put j zero r xs h = absurd (omega arith)
  drop-put j (suc m) r [] h = refl
  drop-put zero (suc m) r (x ∷ xs) h = refl
  drop-put (suc j) (suc m) r (x ∷ xs) h = drop-put j m r xs (omega arith)

  pub take-drop : (j : ℕ) (xs : List R) → take j xs ++ drop j xs ≡ xs
  take-drop zero xs = refl
  take-drop (suc j) [] = refl
  take-drop (suc j) (x ∷ xs) = ap (λ ys. x ∷ ys) (take-drop j xs)

  pub take_over :
      (news xs : List R) (n : ℕ)
      → length news ≤ n
      → n ≤ length xs
      → take n (news ++ drop (length news) xs) ≡ news ++ drop (length news) (take n xs)
  take_over [] xs n h k = refl
  take_over (r ∷ news) xs zero h k = absurd (omega arith)
  take_over (r ∷ news) [] (suc n) h k = absurd (omega arith)
  take_over (r ∷ news) (x ∷ xs) (suc n) h k =
      ap (λ ys. r ∷ ys) (take_over news xs n (omega arith) (omega arith))
