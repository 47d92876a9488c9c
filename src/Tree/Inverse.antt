-- ===== src/Tree/Inverse.antt =====
-- Path indices and paths name the same leaves, in both directions.
use open_liberty_operator.Common.{
  ℕ, Str, ◌++◌, List, Option, none, some, ℤ, pos, Result, ok, Lacks, get_elem?, ◌≡◌, refl, sym,
  arith, All-In, Distinct, get_elem?-In, ◌∙◌,
}
use open_liberty_operator.Tree.Node.{Node, Entries, find, value_at}
use open_liberty_operator.Tree.Walk.{dot}
use open_liberty_operator.Tree.Shape.{leaf_paths}
use open_liberty_operator.Tree.Under.{Under, Under-shape}
use open_liberty_operator.Tree.Index.{LeafError, get_path_from_leaf_index, get_leaf_index}
use open_liberty_operator.Tree.Search.{position}
use open_liberty_operator.Tree.RoundTrip.{
  nth_leaf, index_or_not, get_path_from_leaf_index-nth_leaf, get_leaf_index-position,
  position_sound, position_complete,
}

nth_leaf-ok : (ps : List Str) (i : ℕ) (p : Str) → nth_leaf ps i ≡ ok p → get_elem? ps i ≡ some p
nth_leaf-ok ps i p h = ground arith

nth_leaf-some : (ps : List Str) (i : ℕ) (p : Str) → get_elem? ps i ≡ some p → nth_leaf ps i ≡ ok p
nth_leaf-some ps i p h = ground arith

module _ (tree_map : Entries) (version : Str) (root : Node) (i : ℕ) where
  -- If the version has no dot and stands in the tree with leaf paths that all differ, the path that
  -- `GetPathFromLeafIndex` returns for an index is one for which `GetLeafIndex` returns that index.
  pub get_leaf_index-get_path :
      (p : Str)
      → Lacks b'.' version
      → find version tree_map ≡ some root
      → Distinct (leaf_paths version root)
      → get_path_from_leaf_index tree_map version (pos i) ≡ ok p
      → get_leaf_index tree_map p ≡ ok (pos i)
  get_leaf_index-get_path p h e d r =
      let at_root : value_at version tree_map ≡ root = rw (e, value_at) refl in
      let nth : nth_leaf (leaf_paths version root) i ≡ ok p =
        rw at_root at (sym (get_path_from_leaf_index-nth_leaf tree_map version i) ∙ r) in
      let there = nth_leaf-ok (leaf_paths version root) i p nth in
      let (x, under) =
        All-In (Under version) (leaf_paths version root) p (Under-shape root version)
          (get_elem?-In (leaf_paths version root) i there) in
      let place = position_complete p (leaf_paths version root) i d there in
      rw under (get_leaf_index-position tree_map version x root h e ∙ rw (← under, place) refl)

  -- If the version has no dot and stands in the tree, the index that `GetLeafIndex` returns for a
  -- path of that version is one for which `GetPathFromLeafIndex` returns the path.
  pub get_path-get_leaf_index :
      (rest : Str)
      → Lacks b'.' version
      → find version tree_map ≡ some root
      → get_leaf_index tree_map (version ++ (dot ++ rest)) ≡ ok (pos i)
      → get_path_from_leaf_index tree_map version (pos i) ≡ ok (version ++ (dot ++ rest))
  get_path-get_leaf_index rest h e r =
      let path = version ++ (dot ++ rest) in
      let at_root : value_at version tree_map ≡ root = rw (e, value_at) refl in
      let same = sym (get_leaf_index-position tree_map version rest root h e) ∙ r in
      let place : position path (leaf_paths version root) ≡ some i = index_place _ same in
      get_path_from_leaf_index-nth_leaf tree_map version i
      ∙ rw at_root (nth_leaf-some _ i path (position_sound path (leaf_paths version root) i place))
    where
      index_place :
          (o : Option ℕ)
          → ◌≡◌ {A = Result LeafError ℤ} (ok (index_or_not o)) (ok (pos i))
          → o ≡ some i
      index_place none q = absurd (cc)
      index_place (some j) q = ground arith
