-- ===== src/Tree/Validated.antt =====
-- What `CanTraverseTree` promises to `GetLeafIndex`, whose comment asks for a valid sub path.
use open_liberty_operator.Common.{
  ℕ, suc, Str, ◌==◌, str_eq, nat_eq, Bool, false, List, [], ◌∷◌, ◌++◌, none, some, pos, ok, split,
  length, ◌≡◌, ◌≢◌, refl, sym, ◌∙◌, arith, In, All, All-In, Lacks, Option-cases, Bool-cases, inl,
  inr, cons_head,
}
use open_liberty_operator.Tree.Node.{Node, Entries, find}
use open_liberty_operator.Tree.Walk.{dot}
use open_liberty_operator.Tree.Shape.{leaf_paths}
use open_liberty_operator.Tree.Under.{Under, Under-shape}
use open_liberty_operator.Tree.Search.{position}
use open_liberty_operator.Tree.Index.{get_leaf_index}
use open_liberty_operator.Tree.RoundTrip.{get_leaf_index-position}
use open_liberty_operator.Tree.Traverse.{can_traverse_tree, walk, split_last}
use open_liberty_operator.Tree.Sound.{walk_root}

cons_head-All :
    (sep c : ℕ) (ws : List Str) → c ≢ sep → All (Lacks sep) ws → All (Lacks sep) (cons_head c ws)
cons_head-All sep c [] ne h = ((ne, tt), tt)
cons_head-All sep c (w ∷ ws) ne h = ((ne, h.0), h.1)

split-All : (sep : ℕ) (s : Str) → All (Lacks sep) (split sep s)
unfolding split
split-All sep [] = (tt, tt)
split-All sep (c ∷ s) = elim (Bool-cases (c == sep)) [
  | inl e ↦ rw e (tt, split-All sep s)
  | inr e ↦ rw e (cons_head-All sep c (split sep s) (ground arith) (split-All sep s))
]

position-In : (p : Str) (ps : List Str) → In p ps → (i : ℕ) × (position p ps ≡ some i)
position-In p [] h = absurd h
position-In p (q ∷ qs) h = elim (Bool-cases (q == p)) [
  | inl e ↦ (0, rw e)
  | inr e ↦
      let other : q ≢ p = ground (arith, str_eq.same_iff q p) in
      let (i, r) = position-In p qs (elim h [ inl s ↦ absurd (other (sym s)) | inr m ↦ m ]) in
      (suc i, rw (e, r))
]

leaf_path_index :
    (tree_map : Entries) (version p : Str) (root : Node)
    → Lacks b'.' version
    → find version tree_map ≡ some root
    → In p (leaf_paths version root)
    → (i : ℕ) × (get_leaf_index tree_map p ≡ ok (pos i))
leaf_path_index tree_map version p root h e m =
    let (x, under) =
      All-In (Under version) (leaf_paths version root) p (Under-shape root version) m in
    let (i, place) = position-In p (leaf_paths version root) m in
    (i, rw under (get_leaf_index-position tree_map version x root h e ∙ rw (← under, place) refl))

split_last-Lacks : (s : Str) → Lacks b'.' s → split_last s ≡ none
unfolding split_last
split_last-Lacks [] h = refl
split_last-Lacks (c ∷ s) h = rw (split_last-Lacks s h.1, split_last) (ground arith)

split_last-append : (key v : Str) → Lacks b'.' v → split_last (key ++ (dot ++ v)) ≡ some (key, v)
unfolding split_last
split_last-append [] v h = rw (split_last-Lacks v h, split_last)
split_last-append (c ∷ key) v h = rw (split_last-append key v h, split_last)

length_ne : (s : Str) → s ≢ [] → (length s == 0) ≡ false
length_ne [] ne = absurd (ne refl)
length_ne (c ∷ s) ne = ground arith

accepted_walk :
    (tree_map : Entries) (path : Str) (allow : Bool) (p : Str)
    → can_traverse_tree tree_map path allow ≡ ok p
    → p ≢ []
    → (key : Str) × (path_value : Str) × (walk allow tree_map [] (split b'.' key) path_value ≡ ok p)
unfolding can_traverse_tree
accepted_walk tree_map path allow p h ne = elim (Option-cases (split_last path)) [
  | inl e ↦ absurd (ground arith)
  | inr ((key, path_value), e) ↦ (key, path_value, ground arith)
]

-- Whenever `CanTraverseTree` accepts a path, with sub paths allowed or not, and returns a sub path
-- that is not empty, `GetLeafIndex` finds that sub path: it returns an index and not -1.
pub can_traverse_tree-get_leaf_index :
    (tree_map : Entries) (path : Str) (allow : Bool) (p : Str)
    → can_traverse_tree tree_map path allow ≡ ok p
    → p ≢ []
    → (i : ℕ) × (get_leaf_index tree_map p ≡ ok (pos i))
can_traverse_tree-get_leaf_index tree_map path allow p h ne =
    let (key, path_value, w) = accepted_walk tree_map path allow p h ne in
    let (version, root, m, e, there) = walk_root allow tree_map (split b'.' key) path_value p w in
    leaf_path_index tree_map version p root (All-In (Lacks b'.') _ version (split-All b'.' key) m) e
      there
