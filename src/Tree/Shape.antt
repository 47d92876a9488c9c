-- ===== src/Tree/Shape.antt =====
-- The reference view of a decision tree: its leaf paths, by recursion, maps in key order.
use open_liberty_operator.Common.{
  ℕ, zero, suc, ◌+◌, Str, ◌==◌, str_eq, List, [], ◌∷◌, ◌++◌, some, format_bool, if◌then◌else◌,
  length, get_elem?, ◌≡◌, refl, arith, drop,
}
use open_liberty_operator.Tree.Node.{
  Node, Nodes, Entries, flag, text, list, dict, other, nil, cons, end, entry, find, value_at,
  count_entries, keys_of, sort_strings, insert_sorted,
}
use open_liberty_operator.Tree.Walk.{dot}

-- A tree whose leaves hold their paths.
mutual
  pub data Shape : Type 0 where
    leaf : Str → Shape
    branch : Shapes → Shape

  pub data Shapes : Type 0 where
    no_shapes : Shapes
    add_shape : Shape → Shapes → Shapes

abbrev pub lookup_shape : Str → List (Str × Shape) → Shape
lookup_shape k [] = branch no_shapes
lookup_shape k ((j, s) ∷ t) = if j == k then s else lookup_shape k t

abbrev pub pick : List Str → List (Str × Shape) → Shapes
pick [] t = no_shapes
pick (k ∷ ks) t = add_shape (lookup_shape k t) (pick ks t)

unfoldable mutual
  pub shape : Node → Str → Shape
  shape (flag b) path = leaf (path ++ (dot ++ format_bool b))
  shape (text s) path = leaf (path ++ (dot ++ s))
  shape (list ns) path = branch (shape_list ns path)
  shape (dict es) path = branch (pick (sort_strings (keys_of es)) (shape_table es path))
  shape other path = branch no_shapes

  pub shape_list : Nodes → Str → Shapes
  shape_list nil path = no_shapes
  shape_list (cons n ns) path = add_shape (shape n path) (shape_list ns path)

  pub shape_table : Entries → Str → List (Str × Shape)
  shape_table end path = []
  shape_table (entry k v es) path = (k, shape v (path ++ (dot ++ k))) ∷ shape_table es path

unfoldable mutual
  pub leaves : Shape → List Str
  leaves (leaf path) = path ∷ []
  leaves (branch ss) = leaves_all ss

  pub leaves_all : Shapes → List Str
  leaves_all no_shapes = []
  leaves_all (add_shape s ss) = leaves s ++ leaves_all ss

-- How many rounds a traversal makes.
unfoldable mutual
  pub steps : Shape → ℕ
  steps (leaf path) = 1
  steps (branch ss) = suc (steps_all ss)

  pub steps_all : Shapes → ℕ
  steps_all no_shapes = 0
  steps_all (add_shape s ss) = suc (steps s + steps_all ss)

-- The leaf paths of a node that is reached by `path`.
abbrev pub leaf_paths : Str → Node → List Str
leaf_paths path v = leaves (shape v path)

pub lookup_shape-shape_table :
    (k : Str) (es : Entries) (path : Str)
    → lookup_shape k (shape_table es path) ≡ shape (value_at k es) (path ++ (dot ++ k))
unfolding shape find
lookup_shape-shape_table k end path = refl
lookup_shape-shape_table k (entry j v es) path =
    ground (arith, str_eq.same_iff j k, lookup_shape-shape_table k es path)

length-insert_sorted : (k : Str) (ks : List Str) → length (insert_sorted k ks) ≡ suc (length ks)
unfolding insert_sorted
length-insert_sorted k [] = refl
length-insert_sorted k (j ∷ js) = ground (arith, length-insert_sorted k js)

pub length-sort_keys : (es : Entries) → length (sort_strings (keys_of es)) ≡ count_entries es
unfolding sort_strings
length-sort_keys end = refl
length-sort_keys (entry k v es) =
    omega (arith, length-insert_sorted k (sort_strings (keys_of es)), length-sort_keys es)

pub drop-cons :
    {A : Type 0} (xs : List A) (n : ℕ) (x : A)
    → get_elem? xs n ≡ some x
    → drop n xs ≡ x ∷ drop (suc n) xs
drop-cons [] n x h = absurd (cc)
drop-cons (y ∷ xs) zero x h = ground arith
drop-cons (y ∷ xs) (suc n) x h = drop-cons xs n x h
