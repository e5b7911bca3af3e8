-- ===== src/Topo/Tests.antt =====
-- The theorems about the topology graph at concrete events, over the natural numbers.
use micro_trace.Common.{
  ℕ, ◌/◌, ◌≤◌, ◌<◌, true, false, none, some, List, [], ◌∷◌, if◌then◌else◌, ◌≡◌, refl, arith,
}
use micro_trace.Common.Arith.{nat_arith, nat_arith-IsOrdered}
use micro_trace.Common.Dict.{lookup}
use micro_trace.Topo.{
  at, node_pos, initial, place_new, on_node, on_edge, on_canvas, on_mouse_down, on_mouse_up,
  on_click, is_far,
}
use micro_trace.Topo.Layout.{AllPlaced, place_new-AllPlaced}
use micro_trace.Topo.Limits.{
  IsScaled, Event, wheel, down, move, up, press_in, services, run, IsWithin,
}
use micro_trace.Topo.Limits.Proofs.{run-IsWithin}
use micro_trace.Topo.Gesture.{moves, any_far, action_of, gesture-click}

fraction_small : (m n : ℕ) → m ≤ n → 0 < n → m / n ≤ 1
fraction_small m n h k = grind arith

nat_arith-IsScaled : IsScaled nat_arith
nat_arith-IsScaled = record {
  fraction_ge = λ m n h k. ground arith;
  fraction_le = λ m n h k. ground (arith, fraction_small m n h k);
  grows = λ a h. ground arith;
  shrinks = λ a h. ground arith;
}

abbrev flat : ℕ → ℕ
flat t = 0

abbrev events : List (Event nat_arith)
events =
    wheel 300 200 true
    ∷ up
    ∷ move 40 60
    ∷ down (on_node "redis") 10 20
    ∷ services ("billing" ∷ "redis" ∷ [])
    ∷ press_in
    ∷ []

run-IsWithin_example : IsWithin nat_arith (run nat_arith flat flat 3 events)
run-IsWithin_example =
    run-IsWithin nat_arith nat_arith-IsOrdered nat_arith-IsScaled flat flat 3 events

place_new-AllPlaced_example :
    AllPlaced nat_arith flat flat 3
      ("billing" ∷ "redis" ∷ [])
      (place_new nat_arith flat flat 3 ("billing" ∷ "redis" ∷ []) (initial nat_arith)).positions
    × (lookup "redis"
          (place_new nat_arith flat flat 3 ("billing" ∷ "redis" ∷ []) (initial nat_arith)).positions
        ≡ some (at nat_arith 5 66))
unfolding initial node_pos lookup
place_new-AllPlaced_example =
    place_new-AllPlaced nat_arith flat flat 3 ("billing" ∷ "redis" ∷ []) (initial nat_arith) "redis"
      (at nat_arith 5 66) refl

gesture-click_example :
    on_click nat_arith (on_edge "a→b") (
      on_mouse_up nat_arith (
        moves nat_arith
          ((11, 20) ∷ (12, 21) ∷ [])
          (on_mouse_down nat_arith on_canvas 10 20 (initial nat_arith))))
    ≡ (if any_far nat_arith 10 20 ((11, 20) ∷ (12, 21) ∷ [])
        then none
        else some (action_of nat_arith (on_edge "a→b")))
unfolding initial
gesture-click_example =
    gesture-click nat_arith on_canvas (on_edge "a→b") 10 20 ((11, 20) ∷ (12, 21) ∷ [])
      (initial nat_arith) refl

a_click : any_far nat_arith 10 20 ((11, 20) ∷ (12, 21) ∷ []) ≡ false
unfolding any_far is_far
a_click = refl
