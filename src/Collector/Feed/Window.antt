-- ===== src/Collector/Feed/Window.antt =====
-- A window on the end of a list, through a map.
use micro_trace.Common.{
  ℕ, List, [], ◌∷◌, ◌++◌, map, take_last, drop, ◌≡◌, refl, sym, ap, ◌∙◌, length-map,
}

module _ {X Y : Type 0} (f : X → Y) where
  map-drop : (n : ℕ) (xs : List X) → map f (drop n xs) ≡ drop n (map f xs)
  map-drop ℕ.zero xs = refl
  map-drop (ℕ.suc n) [] = refl
  map-drop (ℕ.suc n) (x ∷ xs) = map-drop n xs

  map-take_last : (n : ℕ) (xs : List X) → map f (take_last n xs) ≡ take_last n (map f xs)
  map-take_last n xs = map-drop _ xs ∙ rw (length-map f xs) refl

  map-snoc : (xs : List X) (x : X) → map f (xs ++ x ∷ []) ≡ map f xs ++ f x ∷ []
  map-snoc [] x = refl
  map-snoc (y ∷ ys) x = ap (λ zs. f y ∷ zs) (map-snoc ys x)

  -- A window that one more point enters, seen through the map.
  pub map-slide :
      (n : ℕ) (xs ys : List X) (x y : X)
      → map f xs ≡ map f ys
      → f x ≡ f y
      → map f (take_last n (xs ++ x ∷ [])) ≡ map f (take_last n (ys ++ y ∷ []))
  map-slide n xs ys x y e d =
      map-take_last n (xs ++ x ∷ [])
      ∙ ap (take_last n) (
          map-snoc xs x
          ∙ ap (λ zs. zs ++ f x ∷ []) e
          ∙ ap (λ z. map f ys ++ z ∷ []) d
          ∙ sym (map-snoc ys y))
      ∙ sym (map-take_last n (ys ++ y ∷ []))
