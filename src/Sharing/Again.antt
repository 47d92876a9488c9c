-- ===== src/Sharing/Again.antt =====
-- Rebuilding the trackers again, from the labels that the first time has left.
use open_liberty_operator.Common.{
  ℕ, ◌<◌, ◌^◌, Str, codes, ◌==◌, str_eq, nat_eq, Bool, List, [], ◌∷◌, ◌++◌, Option, none, some, pos,
  ok, ◌>>=◌, split, has_byte, parse_int, int_value, format_int, ◌≡◌, sym, ap, ◌∙◌, arith, Lacks,
  Result-cases, Bool-cases, inl, inr, parsed, has_byte-append_sep, split-append, split-Lacks,
  format_int-Lacks, parse_int-format_nat,
}
use open_liberty_operator.Tree.Node.{Node, Entries, find}
use open_liberty_operator.Tree.Maps.{ReplaceMap}
use open_liberty_operator.Tree.Index.{get_path_from_leaf_index, get_leaf_index, first_segment}
use open_liberty_operator.Tree.Replace.{replace_path}
use open_liberty_operator.Sharing.Recreate.{
  Tracking, tracking, name_suffix, path_index_of, migrate, track_migrated, track_pair,
  tracked_parts, track_resource,
}
use open_liberty_operator.Tree.Walk.{dot}
use open_liberty_operator.Tree.RoundTrip.{first_segment-append}
use open_liberty_operator.Tree.Inverse.{get_path-get_leaf_index}

module _ (tree_map : Entries) (replace_map : ReplaceMap) (latest : Str) where
  migrate-label :
      (path_index path : Str) (m : Str × Str × Option Str) (label : Str)
      → migrate tree_map replace_map latest path_index path ≡ ok m
      → m.2 ≡ some label
      → (path_index_of tree_map m.1 ≡ ok label) × (m.0 ≡ label)
  unfolding migrate
  migrate-label path_index path m label h e =
      elim (Result-cases (replace_path path latest tree_map replace_map)) [
        | inl (p, r) ↦ elim (Result-cases (path_index_of tree_map p)) [
          | inl (i, q) ↦ ground (arith, r, q, h, e)
          | inr (x, q) ↦ absurd (ground (arith, r, q, h, e))
        ]
        | inr (x, r) ↦ absurd (ground (arith, r, h, e))
      ]

  module _ (root : Str) (refuses : Str → Bool) where
    track_migrated_ok :
        (name : Str) (m : Str × Str × Option Str) (k : Tracking)
        → track_migrated root refuses name m ≡ ok (some k)
        → (n : Str) × (name_suffix root name ≡ ok n) × (k ≡ tracking n m.0 m.1 m.2)
    unfolding track_migrated
    track_migrated_ok name (index, path, label) k h = elim (Result-cases (name_suffix root name)) [
      | inl (n, e) ↦ (n, e, ground (arith, e, h))
      | inr (x, e) ↦ absurd (ground (arith, e, h))
    ]

    -- What is known of a resource that has got a new label.
    abbrev Relabelled : Str → Tracking → Str → Type 0
    Relabelled name k label =
        (n : Str) × (name_suffix root name ≡ ok n)
        × (path_index_of tree_map k.tracker.path ≡ ok label)
        × (k.tracker ≡ (tracking n label k.tracker.path none).tracker)

    migrated-Relabelled :
        (name path_index path : Str) (k : Tracking) (label : Str)
        → (migrate tree_map replace_map latest path_index path >>= track_migrated root refuses name)
          ≡ ok (some k)
        → k.relabelled ≡ some label
        → Relabelled name k label
    migrated-Relabelled name path_index path k label h e =
        elim (Result-cases (migrate tree_map replace_map latest path_index path)) [
          | inr (x, q) ↦ absurd (ground (arith, q, h))
          | inl (m, q) ↦
              let h' : track_migrated root refuses name m ≡ ok (some k) = ground (arith, q, h) in
              let (n, cut, is) = track_migrated_ok name m k h' in
              let (index, same) = migrate-label path_index path m label q (ground (arith, is, e)) in
              (n, cut, ground (arith, is, index), ground (arith, is, same))
        ]

    track_pair-Relabelled :
        (name path_index version index : Str) (k : Tracking) (label : Str)
        → track_pair tree_map replace_map latest root refuses name path_index version index
          ≡ ok (some k)
        → k.relabelled ≡ some label
        → Relabelled name k label
    unfolding track_pair
    track_pair-Relabelled name path_index version index k label h e =
        elim (Result-cases
          (get_path_from_leaf_index tree_map version (int_value (parse_int index)))) [
            | inr (x, q) ↦ absurd (ground (arith, q, h))
            | inl (path, q) ↦ elim (Bool-cases (version == latest)) [
              | inl same ↦ elim (Result-cases (name_suffix root name)) [
                | inl (n, cut) ↦ absurd (ground (arith, q, same, cut, h, e))
                | inr (x, cut) ↦ absurd (ground (arith, q, same, cut, h, e))
              ]
              | inr other ↦
                  migrated-Relabelled name path_index path k label (rw (q, other, track_pair) at h)
                    e
            ]
          ]

    split-Relabelled :
        (name path_index : Str) (parts : List Str) (k : Tracking) (label : Str)
        → tracked_parts tree_map replace_map latest root refuses name path_index parts ≡ ok (some k)
        → k.relabelled ≡ some label
        → Relabelled name k label
    unfolding tracked_parts
    split-Relabelled name path_index [] k label h e = absurd (ground arith)
    split-Relabelled name path_index (version ∷ []) k label h e = absurd (ground arith)
    split-Relabelled name path_index (version ∷ index ∷ []) k label h e =
        track_pair-Relabelled name path_index version index k label h e
    split-Relabelled name path_index (version ∷ index ∷ more ∷ rest) k label h e =
        absurd (ground arith)

    resource-Relabelled :
        (name path_index : Str) (k : Tracking) (label : Str)
        → track_resource tree_map replace_map latest root refuses
            (record { name = name; path_index = some path_index })
          ≡ ok (some k)
        → k.relabelled ≡ some label
        → Relabelled name k label
    unfolding track_resource
    resource-Relabelled name path_index k label h e = elim (Bool-cases (has_byte b'.' path_index)) [
      | inr none_there ↦ absurd (ground (arith, none_there, h))
      | inl there ↦
          split-Relabelled name path_index (split b'.' path_index) k label
            (rw (there, track_resource) at h) e
    ]

  -- A label `<latest>.<index>` is read as the path with that index.
  label-read :
      (root : Str) (refuses : Str → Bool) (name n path : Str) (i : ℕ)
      → Lacks b'.' latest
      → i < 2 ^ 63
      → name_suffix root name ≡ ok n
      → get_path_from_leaf_index tree_map latest (pos i) ≡ ok path
      → track_resource tree_map replace_map latest root refuses
          (record { name = name; path_index = some (latest ++ (codes "." ++ format_int (pos i))) })
        ≡ ok (some (tracking n (latest ++ (codes "." ++ format_int (pos i))) path none))
  unfolding track_resource
  label-read root refuses name n path i l b cut at =
      let parts : split b'.' (latest ++ (codes "." ++ format_int (pos i)))
          ≡ latest ∷ format_int (pos i) ∷ [] =
        split-append b'.' latest (format_int (pos i)) l
        ∙ ap (◌∷◌ latest) (
            split-Lacks b'.' (format_int (pos i))
              (format_int-Lacks b'.' (pos i) (inl (omega arith)) (λ e. ground (arith, e)))) in
      let number : parse_int (format_int (pos i)) ≡ parsed (pos i) =
        unfold format_int in parse_int-format_nat i b in
      ground (
        arith,
        has_byte-append_sep b'.' latest (format_int (pos i)),
        parts,
        number,
        at,
        cut,
        str_eq.same_iff latest latest,
      )

-- Once a resource has got a new label for a path of the latest version that is a leaf of the tree,
-- reading that label again, with whatever writes refused, gives the same tracker and no new label.
-- The version has no dot and stands in the tree, and the index is an int64.
pub track_resource_again :
    (tree_map : Entries) (replace_map : ReplaceMap) (latest root : Str)
    (refuses refuses' : Str → Bool)
    → (name path_index : Str) (k : Tracking) (label rest : Str) (node : Node) (i : ℕ)
    → track_resource tree_map replace_map latest root refuses
        (record { name = name; path_index = some path_index })
      ≡ ok (some k)
    → k.relabelled ≡ some label
    → k.tracker.path ≡ latest ++ (dot ++ rest)
    → Lacks b'.' latest
    → find latest tree_map ≡ some node
    → get_leaf_index tree_map k.tracker.path ≡ ok (pos i)
    → i < 2 ^ 63
    → track_resource tree_map replace_map latest root refuses'
        (record { name = name; path_index = some label })
      ≡ ok (some (record { tracker = k.tracker; relabelled = none }))
unfolding path_index_of
track_resource_again tree_map replace_map latest root refuses refuses' name path_index k label rest
      node i h e p l f x b =
    let (n, cut, index, is) =
      resource-Relabelled tree_map replace_map latest root refuses name path_index k label h e in
    let segment : first_segment k.tracker.path ≡ latest =
      ap first_segment p ∙ first_segment-append latest rest l in
    let text : latest ++ (codes "." ++ format_int (pos i)) ≡ label =
      ground (arith, index, x, segment) in
    let path = latest ++ (dot ++ rest) in
    let there : get_path_from_leaf_index tree_map latest (pos i) ≡ ok path =
      get_path-get_leaf_index tree_map latest node i rest l f
        (ap (get_leaf_index tree_map) (sym p) ∙ x) in
    let again = label-read tree_map replace_map latest root refuses' name n path i l b cut there in
    ground (arith, rw text at again, p, is)
