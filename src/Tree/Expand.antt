-- ===== src/Tree/Expand.antt =====
-- One round of a traversal: which leaves and how many rounds are left behind it.
use open_liberty_operator.Common.{
  ℕ, zero, suc, ◌+◌, ◌<◌, ◌≤◌, Str, str_eq, nat_eq, List, [], ◌∷◌, ◌++◌, Option, none, some,
  format_bool, length, ◌≡◌, refl, sym, arith, drop, All, ltb, get_elem?-some, drop-all,
  append_assoc, Bool-cases, inl, inr,
}
use open_liberty_operator.Tree.Node.{
  Node, Nodes, Entries, flag, text, list, dict, other, nil, cons, value_at, count_entries,
  count_nodes, is_leaf_node, get_sorted_keys, node_at,
}
use open_liberty_operator.Tree.Walk.{
  Frame, frame_of, with_next, dot, leaf_path, map_child, list_child, push_child, expand,
}
use open_liberty_operator.Tree.Shape.{
  Shape, Shapes, leaf, branch, no_shapes, add_shape, pick, shape, shape_list, shape_table, leaves,
  leaves_all, steps, lookup_shape-shape_table, length-sort_keys, drop-cons,
}

abbrev pub drop_nodes : ℕ → Nodes → Nodes
drop_nodes zero ns = ns
drop_nodes (suc k) nil = nil
drop_nodes (suc k) (cons n ns) = drop_nodes k ns

-- What is left to visit below a frame, itself included.
abbrev pub rest_of : Node → Frame → Shape
rest_of (dict es) f = branch (pick (drop f.next f.sorted_keys) (shape_table es f.parent_path))
rest_of (list ns) f = branch (shape_list (drop_nodes f.next ns) f.parent_path)
rest_of (flag b) f = leaf (leaf_path f (format_bool b))
rest_of (text s) f = leaf (leaf_path f s)
rest_of other f = branch no_shapes

abbrev pub rest_all : List Frame → Shapes
rest_all [] = no_shapes
rest_all (f ∷ fs) = add_shape (rest_of f.value f) (rest_all fs)

-- The rounds that a stack takes, without the last one, which sees it empty.
abbrev pub stack_steps : List Frame → ℕ
stack_steps [] = 0
stack_steps (f ∷ fs) = steps (rest_of f.value f) + stack_steps fs

abbrev pub stack_leaves : List Frame → List Str
stack_leaves fs = leaves_all (rest_all fs)

-- A frame holds the sorted keys of its value.
abbrev pub IsFrame : Frame → Type 0
IsFrame f = f.sorted_keys ≡ get_sorted_keys f.value

pub rest_of-frame_of : (path : Str) (v : Node) → rest_of v (frame_of path v) ≡ shape v path
unfolding shape get_sorted_keys
rest_of-frame_of path (flag b) = refl
rest_of-frame_of path (text s) = refl
rest_of-frame_of path (list ns) = refl
rest_of-frame_of path (dict es) = refl
rest_of-frame_of path other = refl

-- One round at a node that is no leaf: no panic, the same leaves to come, one round less.
pub record Expanded (top : Frame) (stack : List Frame) (r : Option (List Frame)) : Type 0 where
  pub after : List Frame
  pub returned : r ≡ some after
  pub framed : All IsFrame after
  pub same_leaves : stack_leaves after ≡ leaves (rest_of top.value top) ++ stack_leaves stack
  pub shorter : suc (stack_steps after) ≡ steps (rest_of top.value top) + stack_steps stack

pop_lem :
    (top : Frame) (stack : List Frame)
    → All IsFrame stack
    → rest_of top.value top ≡ branch no_shapes
    → Expanded top stack (some stack)
unfolding leaves steps
pop_lem top stack w e = record {
  after = stack;
  returned = refl;
  framed = w;
  same_leaves = rw e;
  shorter = rw e (omega arith);
}

push_lem :
    (top : Frame) (stack : List Frame) (path : Str) (v : Node) (ss : Shapes)
    → All IsFrame (top ∷ stack)
    → rest_of top.value top ≡ branch (add_shape (shape v path) ss)
    → rest_of top.value (with_next top) ≡ branch ss
    → Expanded top stack (push_child top stack (some (frame_of path v)))
unfolding leaves steps push_child
push_lem top stack path v ss w e e' = record {
  after = frame_of path v ∷ with_next top ∷ stack;
  returned = refl;
  framed = (refl, w);
  same_leaves =
      rw (rest_of-frame_of path v, e, e') (sym (append_assoc (leaves (shape v path)) _ _));
  shorter = rw (rest_of-frame_of path v, e, e') (omega arith);
}

drop_nodes-node_at :
    (ns : Nodes) (i : ℕ) (v : Node)
    → node_at ns i ≡ some v
    → drop_nodes i ns ≡ cons v (drop_nodes (suc i) ns)
drop_nodes-node_at nil i v h = absurd (cc)
drop_nodes-node_at (cons n ns) zero v h = ground arith
drop_nodes-node_at (cons n ns) (suc i) v h = drop_nodes-node_at ns i v h

node_at-some : (ns : Nodes) (i : ℕ) → i < count_nodes ns → (v : Node) × (node_at ns i ≡ some v)
node_at-some nil i h = absurd (omega arith)
node_at-some (cons n ns) zero h = (n, refl)
node_at-some (cons n ns) (suc i) h = node_at-some ns i (omega arith)

drop_nodes-all : (ns : Nodes) (i : ℕ) → count_nodes ns ≤ i → drop_nodes i ns ≡ nil
drop_nodes-all nil zero h = refl
drop_nodes-all nil (suc i) h = refl
drop_nodes-all (cons n ns) zero h = absurd (omega arith)
drop_nodes-all (cons n ns) (suc i) h = drop_nodes-all ns i (omega arith)

length-frame_keys :
    (f : Frame) (es : Entries)
    → IsFrame f
    → f.value ≡ dict es
    → length f.sorted_keys ≡ count_entries es
unfolding get_sorted_keys
length-frame_keys f es w e = rw (w, e) (length-sort_keys es)

expand_dict :
    (top : Frame) (stack : List Frame) (es : Entries)
    → All IsFrame (top ∷ stack)
    → top.value ≡ dict es
    → Expanded top stack (expand (dict es) top stack)
unfolding expand map_child
expand_dict top stack es w e = elim (Bool-cases (ltb top.next (count_entries es))) [
  | inl more ↦
      let n = length-frame_keys top es w.0 e in
      let (key, k) = get_elem?-some top.sorted_keys top.next (ground (arith, n)) in
      rw (more, k, map_child)
        (push_lem top stack (top.parent_path ++ (dot ++ key)) (value_at key es)
          (pick (drop (suc top.next) top.sorted_keys) (shape_table es top.parent_path)) w
          (rw (
            e,
            drop-cons top.sorted_keys top.next key k,
            lookup_shape-shape_table key es top.parent_path,
          ))
          (rw e))
  | inr none_left ↦
      let n = length-frame_keys top es w.0 e in
      rw none_left
        (pop_lem top stack w.1 (rw (e, drop-all top.sorted_keys top.next (ground (arith, n)))))
]

expand_list :
    (top : Frame) (stack : List Frame) (ns : Nodes)
    → All IsFrame (top ∷ stack)
    → top.value ≡ list ns
    → Expanded top stack (expand (list ns) top stack)
unfolding expand list_child shape_list
expand_list top stack ns w e = elim (Bool-cases (ltb top.next (count_nodes ns))) [
  | inl more ↦
      let (v, k) = node_at-some ns top.next (ground arith) in
      rw (more, k, list_child)
        (push_lem top stack top.parent_path v
          (shape_list (drop_nodes (suc top.next) ns) top.parent_path) w
          (rw (e, drop_nodes-node_at ns top.next v k)) (rw e))
  | inr none_left ↦
      rw none_left (pop_lem top stack w.1 (rw (e, drop_nodes-all ns top.next (ground arith))))
]

pub expand_node :
    (v : Node) (top : Frame) (stack : List Frame)
    → All IsFrame (top ∷ stack)
    → top.value ≡ v
    → is_leaf_node v ≡ none
    → Expanded top stack (expand v top stack)
unfolding expand is_leaf_node
expand_node (flag b) top stack w e h = absurd (cc)
expand_node (text s) top stack w e h = absurd (cc)
expand_node (list ns) top stack w e h = expand_list top stack ns w e
expand_node (dict es) top stack w e h = expand_dict top stack es w e
expand_node other top stack w e h = pop_lem top stack w.1 (rw e)

pub leaf_rest :
    (v : Node) (f : Frame) (s : Str) → is_leaf_node v ≡ some s → rest_of v f ≡ leaf (leaf_path f s)
unfolding is_leaf_node
leaf_rest (flag b) f s h = ground arith
leaf_rest (text t) f s h = ground arith
leaf_rest (list ns) f s h = absurd (cc)
leaf_rest (dict es) f s h = absurd (cc)
leaf_rest other f s h = absurd (cc)
