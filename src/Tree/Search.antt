-- ===== src/Tree/Search.antt =====
-- The traversals find the leaves in the order of the reference view, and their fuel suffices.
use open_liberty_operator.Common.{
  ℕ, zero, suc, ◌+◌, ◌<◌, Str, ◌==◌, str_eq, nat_eq, List, [], ◌∷◌, Option, none, some, get_elem?,
  ◌≡◌, refl, arith, All, Option-cases, if◌then◌else◌, inl, inr, if◌then◌else◌,
}
use open_liberty_operator.Tree.Node.{is_leaf_node}
use open_liberty_operator.Tree.Walk.{
  Frame, leaf_path, Search, found, not_found, path_loop, index_loop,
}
use open_liberty_operator.Tree.Shape.{Shape, leaf, branch, leaves, steps}
use open_liberty_operator.Tree.Expand.{
  rest_of, stack_steps, stack_leaves, IsFrame, expand_node, leaf_rest,
}

abbrev pub nth_path : List Str → ℕ → Search Str
nth_path ps i = elim (get_elem? ps i) [ none ↦ not_found | some p ↦ found p ]

abbrev pub position : Str → List Str → Option ℕ
position p [] = none
position p (q ∷ qs) =
    let rest = position p qs in
    if q == p then some 0 else elim rest [ none ↦ none | some i ↦ some (suc i) ]

abbrev pub position_from : ℕ → Str → List Str → Search ℕ
position_from seen p ps = elim (position p ps) [ none ↦ not_found | some i ↦ found (seen + i) ]

steps_pos : (s : Shape) → 0 < steps s
unfolding steps
steps_pos (leaf p) = omega arith
steps_pos (branch ss) = omega arith

shift : (seen i j : ℕ) → i ≡ suc j → seen + i ≡ suc seen + j
shift seen i j e = omega arith

step_back :
    (top : Frame) (stack : List Frame) (fuel : ℕ) (s : Str)
    → rest_of top.value top ≡ leaf (leaf_path top s)
    → stack_steps (top ∷ stack) < suc fuel
    → stack_steps stack < fuel
step_back top stack fuel s r h = omega (arith, steps_pos (rest_of top.value top))

leaf_round :
    (i seen : ℕ) (p : Str) (ps : List Str) (more : Search Str)
    → ((j : ℕ) → i ≡ suc j → more ≡ nth_path ps j)
    → (if seen == seen + i then found p else more) ≡ nth_path (p ∷ ps) i
leaf_round zero seen p ps more h = ground arith
leaf_round (suc j) seen p ps more h = ground (arith, h j refl)

leaf_position :
    (seen : ℕ) (path p : Str) (ps : List Str) (more : Search ℕ)
    → more ≡ position_from (suc seen) path ps
    → (if p == path then found seen else more) ≡ position_from seen path (p ∷ ps)
leaf_position seen path p ps more h = elim (Option-cases (position path ps)) [
  | inl e ↦ ground arith
  | inr (i, e) ↦ ground arith
]

-- With fuel above the rounds to go, the loop of `GetPathFromLeafIndex` finds the leaf that stands
-- `i` places further, if there is one.
pub path_loop-nth_path :
    (fuel i seen : ℕ) (stack : List Frame)
    → All IsFrame stack
    → stack_steps stack < fuel
    → path_loop fuel (seen + i) seen stack ≡ nth_path (stack_leaves stack) i
unfolding path_loop leaves steps
path_loop-nth_path zero i seen stack w h = absurd (omega arith)
path_loop-nth_path (suc fuel) i seen [] w h = unfold path_loop leaves in refl
path_loop-nth_path (suc fuel) i seen (top ∷ stack) w h =
    elim (Option-cases (is_leaf_node top.value)) [
      | inr (s, e) ↦
          let r = leaf_rest top.value top s e in
          rw (r, path_loop, e)
            (leaf_round i seen (leaf_path top s) (stack_leaves stack) _ (λ j ej.
              rw (shift seen i j ej)
                (path_loop-nth_path fuel j (suc seen) stack w.1 (step_back top stack fuel s r h))))
      | inl e ↦
          let x = expand_node top.value top stack w refl e in
          rw (path_loop, e, x.returned, ← x.same_leaves)
            (path_loop-nth_path fuel i seen x.after x.framed (omega (arith, x.shorter)))
    ]

-- With as much fuel, the loop of `GetLeafIndex` finds the first leaf that has the path.
pub index_loop-position_from :
    (fuel seen : ℕ) (path : Str) (stack : List Frame)
    → All IsFrame stack
    → stack_steps stack < fuel
    → index_loop fuel path seen stack ≡ position_from seen path (stack_leaves stack)
unfolding index_loop leaves steps
index_loop-position_from zero seen path stack w h = absurd (omega arith)
index_loop-position_from (suc fuel) seen path [] w h = refl
index_loop-position_from (suc fuel) seen path (top ∷ stack) w h =
    elim (Option-cases (is_leaf_node top.value)) [
      | inr (s, e) ↦
          let r = leaf_rest top.value top s e in
          rw (r, index_loop, e)
            (leaf_position seen path (leaf_path top s) (stack_leaves stack) _ (
              index_loop-position_from fuel (suc seen) path stack w.1
                (step_back top stack fuel s r h)))
      | inl e ↦
          let x = expand_node top.value top stack w refl e in
          rw (index_loop, e, x.returned, ← x.same_leaves)
            (index_loop-position_from fuel seen path x.after x.framed (omega (arith, x.shorter)))
    ]
