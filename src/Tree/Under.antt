-- ===== src/Tree/Under.antt =====
-- Every leaf path of a node extends the path that reaches the node.
use open_liberty_operator.Common.{
  Str, ◌==◌, str_eq, nat_eq, List, [], ◌∷◌, ◌++◌, append_assoc, ◌≡◌, refl, ◌∙◌, All, All-append,
  Bool-cases, inl, inr, format_bool,
}
use open_liberty_operator.Tree.Node.{
  Node, Nodes, Entries, flag, text, list, dict, other, nil, cons, end, entry, keys_of, sort_strings,
}
use open_liberty_operator.Tree.Walk.{dot}
use open_liberty_operator.Tree.Shape.{
  Shape, lookup_shape, pick, shape, shape_list, shape_table, leaves, leaves_all,
}

-- Every leaf path below `path` is `path`, a dot and more.
abbrev pub Under : Str → Str → Type 0
Under path p = (x : Str) × (p ≡ path ++ (dot ++ x))

Under-key :
    (path k : Str) (ps : List Str) → All (Under (path ++ (dot ++ k))) ps → All (Under path) ps
Under-key path k [] h = tt
Under-key path k (p ∷ ps) ((x, e), h) =
    ((k ++ (dot ++ x), e ∙ append_assoc path (dot ++ k) (dot ++ x)), Under-key path k ps h)

abbrev pub UnderAll : Str → List (Str × Shape) → Type 0
UnderAll path = All (λ e. All (Under path) (leaves e.1))

Under-lookup_shape :
    (path k : Str) (t : List (Str × Shape))
    → UnderAll path t
    → All (Under path) (leaves (lookup_shape k t))
unfolding leaves
Under-lookup_shape path k [] h = tt
Under-lookup_shape path k ((j, s) ∷ t) h = elim (Bool-cases (j == k)) [
  | inl e ↦ rw e h.0
  | inr e ↦ rw e (Under-lookup_shape path k t h.1)
]

Under-pick :
    (path : Str) (ks : List Str) (t : List (Str × Shape))
    → UnderAll path t
    → All (Under path) (leaves_all (pick ks t))
unfolding leaves
Under-pick path [] t h = tt
Under-pick path (k ∷ ks) t h =
    All-append _ (leaves (lookup_shape k t)) (leaves_all (pick ks t))
      (Under-lookup_shape path k t h) (Under-pick path ks t h)

mutual
  unfolding shape leaves

  pub Under-shape : (n : Node) (path : Str) → All (Under path) (leaves (shape n path))
  Under-shape (flag b) path = ((format_bool b, refl), tt)
  Under-shape (text s) path = ((s, refl), tt)
  Under-shape (list ns) path = Under-shape_list ns path
  Under-shape (dict es) path =
      Under-pick path (sort_strings (keys_of es)) _ (Under-shape_table es path)
  Under-shape other path = tt

  pub Under-shape_list :
      (ns : Nodes) (path : Str) → All (Under path) (leaves_all (shape_list ns path))
  Under-shape_list nil path = tt
  Under-shape_list (cons n ns) path =
      All-append _ (leaves (shape n path)) (leaves_all (shape_list ns path)) (Under-shape n path)
        (Under-shape_list ns path)

  pub Under-shape_table : (es : Entries) (path : Str) → UnderAll path (shape_table es path)
  Under-shape_table end path = tt
  Under-shape_table (entry k v es) path = (
    Under-key path k (leaves (shape v (path ++ (dot ++ k)))) (Under-shape v (path ++ (dot ++ k))),
    Under-shape_table es path,
  )
