-- ===== src/Topo/Limits.antt =====
-- The limits of the picture of TopoGraph.tsx: the scale stays between 0.2 and 3, and every service in the frame.
pub mod Proofs
use micro_trace.Common.{ℕ, ◌≤◌, ◌<◌, String, Bool, List, [], ◌∷◌}
use micro_trace.Common.Arith.{Arith}
use micro_trace.Common.Order.{AtMost}
use micro_trace.Common.Dict.{AllEntries}
use micro_trace.Topo.{
  Graph, Pos, Target, initial, place_new, on_wheel, on_mouse_down, on_mouse_move, on_mouse_up, fit,
  zoom_in, zoom_out,
}

-- What the limits rest on: a proper fraction lies between 0 and 1, and a factor of 1.2 does not shrink a
-- number that is not negative, nor does dividing by it make one grow.
pub record IsScaled (A : Arith) : Type 0 where
  pub fraction_ge : (m n : ℕ) → m ≤ n → 0 < n → AtMost A (A.num 0) (A.div (A.num m) (A.num n))
  pub fraction_le : (m n : ℕ) → m ≤ n → 0 < n → AtMost A (A.div (A.num m) (A.num n)) (A.num 1)
  pub grows : (a : A.Num) → AtMost A (A.num 0) a → AtMost A a (A.mul a (A.div (A.num 6) (A.num 5)))
  pub shrinks :
      (a : A.Num) → AtMost A (A.num 0) a → AtMost A (A.div a (A.div (A.num 6) (A.num 5))) a

module _ (A : Arith) where
  open A use {Num, num, div}

  -- What the user, the data and the browser do to the picture.
  pub data Event : Type 0 where
    wheel : Num → Num → Bool → Event
    down : Target → Num → Num → Event
    move : Num → Num → Event
    up double_click press_in press_out : Event
    services : List String → Event

  module _ (sin cos : Num → Num) (pi : Num) where
    unfoldable pub step : Event → Graph A → Graph A
    step (wheel mx my upwards) g = on_wheel A mx my upwards g
    step (down target cx cy) g = on_mouse_down A target cx cy g
    step (move cx cy) g = on_mouse_move A cx cy g
    step up g = on_mouse_up A g
    step double_click g = fit A g
    step press_in g = zoom_in A g
    step press_out g = zoom_out A g
    step (services names) g = place_new A sin cos pi names g

    -- The newest event first.
    unfoldable pub run : List Event → Graph A
    unfolding step
    run [] = initial A
    run (e ∷ older) = step e (run older)

  abbrev pub lowest : Num
  lowest = div (num 1) (num 5)

  abbrev pub InFrame : String → Pos A → Type 0
  InFrame k p =
      AtMost A (num 0) p.x × AtMost A p.x (num 1) × AtMost A (num 0) p.y × AtMost A p.y (num 1)

  pub record IsWithin (g : Graph A) : Type 0 where
    pub scale_ge : AtMost A lowest g.transform.scale
    pub scale_le : AtMost A g.transform.scale (num 3)
    pub framed : AllEntries InFrame g.positions
