-- ===== src/Tree/RoundTrip.antt =====
-- `GetPathFromLeafIndex` and `GetLeafIndex` against the list of leaf paths, and against each other.
use open_liberty_operator.Common.{
  ℕ, zero, suc, ◌+◌, ◌<◌, Str, ◌==◌, str_eq, nat_eq, false, List, [], ◌∷◌, ◌++◌, append-nil, Option,
  none, some, ℤ, pos, Result, ok, err, Lacks, has_byte-append_sep, split-append, length, get_elem?,
  ◌≡◌, ◌≢◌, refl, ap, ◌∙◌, arith, Distinct, get_elem?-In,
}
use open_liberty_operator.Tree.Node.{Node, Entries, find, value_at}
use open_liberty_operator.Tree.Walk.{dot, frame_of, path_loop, index_loop}
use open_liberty_operator.Tree.Shape.{leaves, steps, leaf_paths}
use open_liberty_operator.Tree.Expand.{rest_of-frame_of, stack_leaves, stack_steps}
use open_liberty_operator.Tree.Search.{
  nth_path, position, position_from, path_loop-nth_path, index_loop-position_from,
}
use open_liberty_operator.Tree.Index.{
  LeafError, no_leaf, get_path_from_leaf_index, get_leaf_index, not_an_index, first_segment, enough,
  path_result, index_result,
}

abbrev pub nth_leaf : List Str → ℕ → Result LeafError Str
nth_leaf ps i = elim (get_elem? ps i) [ none ↦ err no_leaf | some p ↦ ok p ]

root_steps : (path : Str) (v : Node) → stack_steps (frame_of path v ∷ []) < enough path v
root_steps path v = omega (arith, ap steps (rest_of-frame_of path v))

root_leaves : (path : Str) (v : Node) → stack_leaves (frame_of path v ∷ []) ≡ leaf_paths path v
unfolding leaves
root_leaves path v = rw (rest_of-frame_of path v, append-nil)

path_result-nth_path : (ps : List Str) (i : ℕ) → path_result (nth_path ps i) ≡ nth_leaf ps i
unfolding path_result
path_result-nth_path ps i = ground arith

root_path :
    (path : Str) (v : Node) (i : ℕ)
    → path_loop (enough path v) i 0 (frame_of path v ∷ []) ≡ nth_path (leaf_paths path v) i
root_path path v i =
    let z : 0 + i ≡ i = omega arith in
    let run =
      path_loop-nth_path (enough path v) i 0 (frame_of path v ∷ []) (refl, tt)
        (root_steps path v) in
    rw (z, root_leaves path v) at run

-- For every version and every index from 0 on, `GetPathFromLeafIndex` returns the path of the leaf
-- with that index in the list of leaf paths, and an error past the end of the list. It never
-- panics, and its loop ends.
pub get_path_from_leaf_index-nth_leaf :
    (tree_map : Entries) (version : Str) (i : ℕ)
    → get_path_from_leaf_index tree_map version (pos i)
      ≡ nth_leaf (leaf_paths version (value_at version tree_map)) i
unfolding get_path_from_leaf_index
get_path_from_leaf_index-nth_leaf tree_map version i =
    let root = value_at version tree_map in
    ap path_result (root_path version root i) ∙ path_result-nth_path (leaf_paths version root) i

abbrev pub index_or_not : Option ℕ → ℤ
index_or_not none = not_an_index
index_or_not (some i) = pos i

index_result-position :
    (path : Str) (ps : List Str)
    → index_result (position_from 0 path ps) ≡ ok (index_or_not (position path ps))
unfolding index_result
index_result-position path ps = ground arith

pub first_segment-append : (p rest : Str) → Lacks b'.' p → first_segment (p ++ (dot ++ rest)) ≡ p
unfolding first_segment
first_segment-append p rest h = rw (split-append b'.' p rest h, first_segment)

pub length-append_ne : (p rest : Str) → (length (p ++ (dot ++ rest)) == 0) ≡ false
length-append_ne [] rest = ground arith
length-append_ne (c ∷ p) rest = ground arith

root_index :
    (segment version path : Str) (root : Node)
    → segment ≡ version
    → index_result (index_loop (enough segment root) path 0 (frame_of segment root ∷ []))
      ≡ ok (index_or_not (position path (leaf_paths version root)))
root_index segment version path root e =
    rw
      (
        e,
        index_loop-position_from (enough version root) 0 path (frame_of version root ∷ [])
            (refl, tt) (root_steps version root),
        root_leaves version root,
      )
      (index_result-position path (leaf_paths version root))

-- For a path `<version>.<rest>` whose version has no dot and stands in the tree, `GetLeafIndex`
-- returns the place of the path's first occurrence among the leaf paths of that version, and -1 if
-- it is none of them. It never panics, and its loop ends.
pub get_leaf_index-position :
    (tree_map : Entries) (version rest : Str) (root : Node)
    → Lacks b'.' version
    → find version tree_map ≡ some root
    → get_leaf_index tree_map (version ++ (dot ++ rest))
      ≡ ok (index_or_not (position (version ++ (dot ++ rest)) (leaf_paths version root)))
unfolding get_leaf_index
get_leaf_index-position tree_map version rest root h e =
    let path = version ++ (dot ++ rest) in
    let segment = first_segment-append version rest h in
    let e' : find (first_segment path) tree_map ≡ some root = rw segment e in
    rw (length-append_ne version rest, has_byte-append_sep b'.' version rest, e')
      (root_index (first_segment path) version path root segment)

pub position_sound :
    (p : Str) (ps : List Str) (i : ℕ) → position p ps ≡ some i → get_elem? ps i ≡ some p
position_sound p [] i h = absurd (cc)
position_sound p (q ∷ qs) zero h = ground (arith, str_eq.same_iff q p)
position_sound p (q ∷ qs) (suc i) h = ground (arith, str_eq.same_iff q p, position_sound p qs i)

pub position_complete :
    (p : Str) (ps : List Str) (i : ℕ)
    → Distinct ps
    → get_elem? ps i ≡ some p
    → position p ps ≡ some i
position_complete p [] i d h = absurd (cc)
position_complete p (q ∷ qs) zero d h = ground (arith, str_eq.same_iff q p)
position_complete p (q ∷ qs) (suc i) d h =
    let other : q ≢ p = λ e. d.0 (rw e (get_elem?-In qs i h)) in
    ground (arith, str_eq.same_iff q p, position_complete p qs i d.1 h, other)
