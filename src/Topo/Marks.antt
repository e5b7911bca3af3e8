-- ===== src/Topo/Marks.antt =====
-- Which services of TopoGraph.tsx are marked with the connection that is selected.
use Prim.Native.String.{◌++◌, len, slice}
use text.Mathlib.Text.{starts_with}
use text.Mathlib.TextLemmas.{append-nil, append_assoc}
use text.Mathlib.TextPositions.{starts_with-append, slice-append_middle, len-append, eq_refl}
use micro_trace.Common.{◌+◌, ◌-◌, String, true, Option, some, ◌≡◌, sym, ap, ◌∙◌, arith, eq_iff}
use micro_trace.Common.Arith.{Arith}
use micro_trace.Common.Key.{edge_key, edge_key_ne_empty}
use micro_trace.Topo.View.{ends_with, is_selected_node}

starts_with-key : (src dst : String) → starts_with (edge_key src dst) (src ++ "→") ≡ true
unfolding edge_key
starts_with-key src dst =
    ap (λ k. starts_with k (src ++ "→")) (sym (append_assoc src "→" dst))
    ∙ starts_with-append (src ++ "→") dst

cut_end : (s t : String) → slice (s ++ t) (len (s ++ t) - len t) (len (s ++ t)) ≡ t
cut_end s t =
    let total : len (s ++ t) ≡ len s + len t = len-append s t in
    let first : len (s ++ t) - len t ≡ len s = omega (arith, total) in
    rw (first, total)
      (ap (λ u. slice (s ++ u) (len s) (len s + len t)) (sym (append-nil t))
        ∙ slice-append_middle s t "")

module _ (A : Arith) where
  ends_with-append : (s t : String) → ends_with A (s ++ t) t ≡ true
  ends_with-append s t = rw (cut_end s t) (eq_refl t)

  ends_with-key : (src dst : String) → ends_with A (edge_key src dst) ("→" ++ dst) ≡ true
  unfolding edge_key
  ends_with-key src dst = ends_with-append src ("→" ++ dst)

  -- A connection that is selected marks both of its services, whichever service is selected besides.
  pub is_selected_node-edge_key :
      (selected : Option String) (src dst : String)
      → (is_selected_node A selected (some (edge_key src dst)) src ≡ true)
        × (is_selected_node A selected (some (edge_key src dst)) dst ≡ true)
  unfolding is_selected_node
  is_selected_node-edge_key selected src dst =
      let full = edge_key_ne_empty src dst in
      (
        ground (arith, starts_with-key src dst, eq_iff (edge_key src dst) "", full),
        ground (arith, ends_with-key src dst, eq_iff (edge_key src dst) "", full),
      )
