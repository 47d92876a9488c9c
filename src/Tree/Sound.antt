-- ===== src/Tree/Sound.antt =====
-- Every sub path that `CanTraverseTree` validates is a leaf path of the tree.
use open_liberty_operator.Common.{
  Str, codes, ◌==◌, str_eq, nat_eq, Bool, true, false, List, [], ◌∷◌, ◌++◌, some, ok, format_bool,
  ◌≡◌, refl, sym, subst, arith, In, In-append_left, In-append_right, ◌⊎◌, inl, inr, Option-cases,
  Bool-cases, append_assoc,
}
use open_liberty_operator.Tree.Node.{
  Node, Nodes, Entries, flag, text, list, dict, other, nil, cons, end, entry, find, value_at,
  keys_of, sort_strings, insert_sorted,
}
use open_liberty_operator.Tree.Walk.{dot}
use open_liberty_operator.Tree.Shape.{
  Shape, lookup_shape, pick, shape, shape_list, shape_table, leaves, leaves_all, leaf_paths,
  lookup_shape-shape_table,
}
use open_liberty_operator.Tree.Traverse.{
  Traversed, Seen, look_at, look_through, nothing_seen, get_casted_list_element, end_of_sub_path,
  last_element, walk,
}

find-In : (k : Str) (es : Entries) (v : Node) → find k es ≡ some v → In k (keys_of es)
unfolding find
find-In k end v h = absurd (cc)
find-In k (entry j w es) v h = elim (Bool-cases (j == k)) [
  | inl e ↦ inl (sym ((str_eq.same_iff j k).0 e))
  | inr e ↦ inr (find-In k es v (ground arith))
]

In-insert_sorted : (k j : Str) (ks : List Str) → (k ≡ j) ⊎ In k ks → In k (insert_sorted j ks)
unfolding insert_sorted
In-insert_sorted k j [] h = h
In-insert_sorted k j (i ∷ is) h = ground (arith, In-insert_sorted k j is)

In-sort_strings : (k : Str) (ks : List Str) → In k ks → In k (sort_strings ks)
unfolding sort_strings
In-sort_strings k [] h = h
In-sort_strings k (j ∷ js) (inl e) = In-insert_sorted k j (sort_strings js) (inl e)
In-sort_strings k (j ∷ js) (inr h) =
    In-insert_sorted k j (sort_strings js) (inr (In-sort_strings k js h))

In-pick :
    (k p : Str) (ks : List Str) (t : List (Str × Shape))
    → In k ks
    → In p (leaves (lookup_shape k t))
    → In p (leaves_all (pick ks t))
unfolding leaves
In-pick k p [] t h m = absurd h
In-pick k p (j ∷ ks) t (inl e) m =
    In-append_left p _ _ (subst (λ i. In p (leaves (lookup_shape i t))) e m)
In-pick k p (j ∷ ks) t (inr h) m = In-append_right p _ _ (In-pick k p ks t h m)

-- The leaves of a map's child are leaves of the map.
pub In-child :
    (es : Entries) (k path p : Str) (v : Node)
    → find k es ≡ some v
    → In p (leaf_paths (path ++ (dot ++ k)) v)
    → In p (leaf_paths path (dict es))
unfolding shape leaves
In-child es k path p v e m =
    In-pick k p (sort_strings (keys_of es)) (shape_table es path)
      (In-sort_strings k (keys_of es) (find-In k es v e))
      (rw (lookup_shape-shape_table k es path, e, value_at) m)

-- What one element of a list shows stands among its leaves.
module _ (element path : Str) (seen : Seen) where
  ShownIn : Seen → List Str → Type 0
  ShownIn after ps =
      (after.has_true ≡ true → (seen.has_true ≡ true) ⊎ In (path ++ codes ".true") ps)
      × (after.has_false ≡ true → (seen.has_false ≡ true) ⊎ In (path ++ codes ".false") ps)
      × (after.has_string ≡ true → (seen.has_string ≡ true) ⊎ In (path ++ (dot ++ element)) ps)

  look_at-ShownIn : (n : Node) → ShownIn (look_at element n seen) (leaf_paths path n)
  unfolding ShownIn look_at shape leaves format_bool
  look_at-ShownIn (flag true) = (λ h. inr (inl refl), λ h. inl h, λ h. inl h)
  look_at-ShownIn (flag false) = (λ h. inl h, λ h. inr (inl refl), λ h. inl h)
  look_at-ShownIn (text s) = elim (Bool-cases (s == element)) [
    | inl e ↦ rw e (λ h. inl h, λ h. inl h, λ h. inr (inl (rw ((str_eq.same_iff s element).0 e))))
    | inr e ↦ rw e (λ h. inl h, λ h. inl h, λ h. inl h)
  ]
  look_at-ShownIn (list ns) = (λ h. inl h, λ h. inl h, λ h. inl h)
  look_at-ShownIn (dict es) = (λ h. inl h, λ h. inl h, λ h. inl h)
  look_at-ShownIn other = (λ h. inl h, λ h. inl h, λ h. inl h)

widen :
    {P Q : Type 0} (p : Str) (ps qs : List Str)
    → (Q → P ⊎ In p ps)
    → Q ⊎ In p qs
    → P ⊎ In p (ps ++ qs)
widen p ps qs f (inr m) = inr (In-append_right p ps qs m)
widen p ps qs f (inl h) = elim (f h) [ inl a ↦ inl a | inr m ↦ inr (In-append_left p ps qs m) ]

look_through-ShownIn :
    (element path : Str) (ns : Nodes) (seen : Seen)
    → ShownIn element path seen (look_through element ns seen) (leaves_all (shape_list ns path))
unfolding ShownIn look_through shape leaves
look_through-ShownIn element path nil seen = (λ h. inl h, λ h. inl h, λ h. inl h)
look_through-ShownIn element path (cons n ns) seen =
    let (t, f, s) = look_at-ShownIn element path seen n in
    let (t', f', s') = look_through-ShownIn element path ns (look_at element n seen) in
    let ps = leaf_paths path n in
    let qs = leaves_all (shape_list ns path) in
    (
      λ h. widen (path ++ codes ".true") ps qs t (t' h),
      λ h. widen (path ++ codes ".false") ps qs f (f' h),
      λ h. widen (path ++ (dot ++ element)) ps qs s (s' h),
    )

unseen : {P : Type 0} → (◌≡◌ {A = Bool} false true) ⊎ P → P
unseen (inl h) = absurd (cc)
unseen (inr p) = p

casted_cases :
    (ns : Nodes) (path element p : Str)
    → get_casted_list_element ns path element ≡ ok p
    → let seen = look_through element ns nothing_seen in
      (seen.has_true ≡ true) × (p ≡ path ++ codes ".true")
      ⊎ (seen.has_false ≡ true) × (p ≡ path ++ codes ".false")
      ⊎ (seen.has_string ≡ true) × (p ≡ path ++ (dot ++ element))
unfolding get_casted_list_element
casted_cases ns path element p h = ground arith

casted-In :
    (ns : Nodes) (path element p : Str)
    → get_casted_list_element ns path element ≡ ok p
    → In p (leaf_paths path (list ns))
unfolding ShownIn shape leaves
casted-In ns path element p h =
    let (t, f, s) = look_through-ShownIn element path ns nothing_seen in
    elim (casted_cases ns path element p h) [
      | inl (seen, e) ↦ rw e (unseen (t seen))
      | inr (inl (seen, e)) ↦ rw e (unseen (f seen))
      | inr (inr (seen, e)) ↦ rw e (unseen (s seen))
    ]

end_of_sub_path-In :
    (allow : Bool) (v : Node) (path element p : Str)
    → end_of_sub_path allow v path element ≡ ok p
    → In p (leaf_paths path v)
unfolding end_of_sub_path shape leaves
end_of_sub_path-In false v path element p h = absurd (cc)
end_of_sub_path-In true (flag b) path element p h = inl (ground arith)
end_of_sub_path-In true (text s) path element p h = inl (ground arith)
end_of_sub_path-In true (list ns) path element p h = casted-In ns path element p h
end_of_sub_path-In true (dict es) path element p h = absurd (cc)
end_of_sub_path-In true other path element p h = absurd (cc)

last_element-In :
    (v : Node) (path path_value p : Str)
    → last_element v path path_value ≡ ok p
    → In p (leaf_paths path v)
unfolding last_element shape leaves
last_element-In (flag b) path path_value p h = inl (ground arith)
last_element-In (text s) path path_value p h = inl (ground arith)
last_element-In (list ns) path path_value p h = casted-In ns path path_value p h
last_element-In (dict es) path path_value p h = absurd (cc)
last_element-In other path path_value p h = absurd (cc)

-- The value that a segment selects, with the walk's continuation `below` on a map.
child_walk :
    (allow : Bool) (below : Entries → Traversed) (v : Node) (path path' next p : Str)
    → path' ≡ path
    → ((es : Entries) → below es ≡ ok p → In p (leaf_paths path (dict es)))
    → elim v [ dict es ↦ below es | other_value ↦ end_of_sub_path allow other_value path' next ]
      ≡ ok p
    → In p (leaf_paths path v)
child_walk allow below (dict es) path path' next p same ih h = ih es h
child_walk allow below (flag b) path path' next p same ih h =
    rw (← same) (end_of_sub_path-In allow (flag b) path' next p h)
child_walk allow below (text s) path path' next p same ih h =
    rw (← same) (end_of_sub_path-In allow (text s) path' next p h)
child_walk allow below (list ns) path path' next p same ih h =
    rw (← same) (end_of_sub_path-In allow (list ns) path' next p h)
child_walk allow below other path path' next p same ih h =
    rw (← same) (end_of_sub_path-In allow other path' next p h)

regroup :
    (path segment : Str) → (path ++ dot) ++ (segment ++ dot) ≡ (path ++ (dot ++ segment)) ++ dot
regroup path segment = simp append_assoc

-- Below a map that is reached on `path`, a walk ends at a leaf of the map.
pub walk-In :
    (allow : Bool) (es : Entries) (path : Str) (segments : List Str) (path_value p : Str)
    → walk allow es (path ++ dot) segments path_value ≡ ok p
    → In p (leaf_paths path (dict es))
unfolding walk
walk-In allow es path [] path_value p h = absurd (cc)
walk-In allow es path (segment ∷ []) path_value p h = elim (Option-cases (find segment es)) [
  | inl e ↦ absurd (cc (rw (e, walk) at h))
  | inr (v, e) ↦
      In-child es segment path p v e
        (last_element-In v _ path_value p (rw (e, walk, append_assoc path dot segment) at h))
]
walk-In allow es path (segment ∷ next ∷ rest) path_value p h =
    elim (Option-cases (find segment es)) [
      | inl e ↦ absurd (cc (rw (e, walk) at h))
      | inr (v, e) ↦ In-child es segment path p v e (
          child_walk allow _ v _ _ next p (append_assoc path dot segment)
            (λ child q.
              walk-In allow child (path ++ (dot ++ segment)) (next ∷ rest) path_value p
                (rw (regroup path segment) at q))
            (rw (e, walk) at h))
    ]

-- The same from the root of the tree, where the first segment is a version.
pub walk_root :
    (allow : Bool) (tree_map : Entries) (segments : List Str) (path_value p : Str)
    → walk allow tree_map [] segments path_value ≡ ok p
    → (version : Str) × (root : Node) × In version segments
      × (find version tree_map ≡ some root)
      × In p (leaf_paths version root)
unfolding walk
walk_root allow tree_map [] path_value p h = absurd (cc)
walk_root allow tree_map (segment ∷ []) path_value p h =
    elim (Option-cases (find segment tree_map)) [
      | inl e ↦ absurd (cc (rw (e, walk) at h))
      | inr (v, e) ↦
          (segment, v, inl refl, e, last_element-In v segment path_value p (rw (e, walk) at h))
    ]
walk_root allow tree_map (segment ∷ next ∷ rest) path_value p h =
    elim (Option-cases (find segment tree_map)) [
      | inl e ↦ absurd (cc (rw (e, walk) at h))
      | inr (v, e) ↦ (
        segment,
        v,
        inl refl,
        e,
        child_walk allow _ v segment segment next p refl
            (λ child. walk-In allow child segment (next ∷ rest) path_value p) (rw (e, walk) at h),
      )
    ]
