-- ===== src/Sharing/Collision.antt =====
-- Whether another key Secret has the path index that the default key of version 1.3.3 is to get:
-- `HasDefaultLTPAKeyCollision` (internal/controller/ltpa_keys_sharing.go).
use open_liberty_operator.Common.{
  Str, ◌==◌, str_eq, Bool, true, false, not, List, [], ◌∷◌, Option, none, some, Result, ok, err,
  ◌>>=◌, split, has_byte, parse_int, int_value, if◌then◌else◌, ◌≡◌, ◌≢◌, refl, sym, ap, ◌∙◌, arith,
  All, Result-cases, Bool-cases, Option-cases, inl, inr,
}
use open_liberty_operator.Tree.Node.{Entries}
use open_liberty_operator.Tree.Maps.{ReplaceMap}
use open_liberty_operator.Tree.Index.{
  negative_index, no_leaf, panic, fuel_spent, get_path_from_leaf_index,
}
use open_liberty_operator.Tree.Replace.{ReplaceError, replace_path}
use open_liberty_operator.Sharing.Recreate.{
  Labelled, TrackError, panics, Tracking, tracking, name_suffix, path_index_of, migrate,
  track_migrated, track_pair, tracked_parts, track_resource,
}

module _ (tree_map : Entries) (replace_map : ReplaceMap) (latest default_index : Str) where
  -- A path index of two parts.
  unfoldable pub pair_collides : Str → Str → Str → Result TrackError Bool
  pair_collides path_index version index =
      if version == latest
      then ok (default_index == path_index)
      else elim (get_path_from_leaf_index tree_map version (int_value (parse_int index))) [
        | err e ↦ elim e [
          | negative_index ↦ ok false
          | no_leaf ↦ ok false
          | panic ↦ err panics
          | fuel_spent ↦ err panics
        ]
        | ok path ↦ elim (replace_path path latest tree_map replace_map) [
          | err e ↦ elim e [
            | ReplaceError.no_upgrade_path ↦ ok false
            | ReplaceError.panics ↦ err panics
            | ReplaceError.out_of_fuel ↦ err panics
          ]
          | ok path' ↦ path_index_of tree_map path' >>= λ updated. ok (default_index == updated)
        ]
      ]

  unfoldable pub parts_collide : Str → List Str → Result TrackError Bool
  unfolding pair_collides
  parts_collide path_index (version ∷ index ∷ []) = pair_collides path_index version index
  parts_collide path_index parts = ok false

  -- One round of the loop.
  unfoldable pub collides : Labelled → Result TrackError Bool
  unfolding parts_collide
  collides r = elim r.path_index [
    | none ↦ ok false
    | some path_index ↦
        if not (has_byte b'.' path_index)
        then ok false
        else parts_collide path_index (split b'.' path_index)
  ]

  -- `HasDefaultLTPAKeyCollision`; `root` is the name of the default key.
  unfoldable pub has_default_ltpa_key_collision : Str → List Labelled → Result TrackError Bool
  unfolding collides
  has_default_ltpa_key_collision root [] = ok false
  has_default_ltpa_key_collision root (r ∷ rs) =
      let rest = has_default_ltpa_key_collision root rs in
      if r.name == root then rest else collides r >>= λ b. if b then ok true else rest

  module _ (root : Str) (refuses : Str → Bool) where
    -- The default index is one of the latest version.
    abbrev IsLatest : Type 0
    IsLatest =
        (version index : Str) → split b'.' default_index ≡ version ∷ index ∷ [] → version ≡ latest

    migrate-apart :
        (path_index path : Str) (m : Str × Str × Option Str)
        → path_index ≢ default_index
        → migrate tree_map replace_map latest path_index path ≡ ok m
        → ((path' : Str)
            → replace_path path latest tree_map replace_map ≡ ok path'
            → path_index_of tree_map path' ≢ ok default_index)
        → m.0 ≢ default_index
    unfolding migrate
    migrate-apart path_index path m n h k =
        elim (Result-cases (replace_path path latest tree_map replace_map)) [
          | inl (p, r) ↦ elim (Result-cases (path_index_of tree_map p)) [
            | inl (i, q) ↦ ground (arith, r, q, h, k p)
            | inr (x, q) ↦ absurd (ground (arith, r, q, h))
          ]
          | inr (x, r) ↦ ground (arith, r, h, n)
        ]

    track_migrated-index :
        (name : Str) (m : Str × Str × Option Str) (k : Tracking)
        → track_migrated root refuses name m ≡ ok (some k)
        → k.tracker.path_index ≡ m.0
    unfolding track_migrated
    track_migrated-index name (index, path, label) k h =
        elim (Result-cases (name_suffix root name)) [
          | inl (n, e) ↦
              let is : k ≡ tracking n index path label = ground (arith, e, h) in
              ap (λ t. t.tracker.path_index) is
          | inr (x, e) ↦ absurd (ground (arith, e, h))
        ]

    migrated-apart :
        (name path_index path : Str) (k : Tracking)
        → path_index ≢ default_index
        → (migrate tree_map replace_map latest path_index path >>= track_migrated root refuses name)
          ≡ ok (some k)
        → ((path' : Str)
            → replace_path path latest tree_map replace_map ≡ ok path'
            → path_index_of tree_map path' ≢ ok default_index)
        → k.tracker.path_index ≢ default_index
    migrated-apart name path_index path k n h apart =
        elim (Result-cases (migrate tree_map replace_map latest path_index path)) [
          | inr (x, q) ↦ absurd (ground (arith, q, h))
          | inl (m, q) ↦
              let is = track_migrated-index name m k (ground (arith, q, h)) in
              λ e. migrate-apart path_index path m n q apart (sym is ∙ e)
        ]

    pair_collides-updated :
        (path_index version index path path' : Str)
        → pair_collides path_index version index ≡ ok false
        → (version == latest) ≡ false
        → get_path_from_leaf_index tree_map version (int_value (parse_int index)) ≡ ok path
        → replace_path path latest tree_map replace_map ≡ ok path'
        → path_index_of tree_map path' ≢ ok default_index
    unfolding pair_collides
    pair_collides-updated path_index version index path path' h v g r e =
        ground (arith, h, v, g, r, e, str_eq.same_iff default_index default_index)

    pair_collides-latest :
        (path_index version index : Str)
        → pair_collides path_index version index ≡ ok false
        → (version == latest) ≡ true
        → path_index ≢ default_index
    unfolding pair_collides
    pair_collides-latest path_index version index h v =
        ground (arith, h, v, str_eq.same_iff default_index path_index)

    track_pair-latest :
        (name path_index version index : Str) (k : Tracking)
        → (version == latest) ≡ true
        → track_pair tree_map replace_map latest root refuses name path_index version index
          ≡ ok (some k)
        → k.tracker.path_index ≡ path_index
    unfolding track_pair
    track_pair-latest name path_index version index k v t =
        elim (Result-cases
          (get_path_from_leaf_index tree_map version (int_value (parse_int index)))) [
            | inr (x, g) ↦ absurd (ground (arith, v, g, t))
            | inl (path, g) ↦ elim (Result-cases (name_suffix root name)) [
              | inr (x, e) ↦ absurd (ground (arith, v, g, e, t))
              | inl (n, e) ↦
                  let is : k ≡ tracking n path_index path none = ground (arith, v, g, e, t) in
                  ap (λ t. t.tracker.path_index) is
            ]
          ]

    track_pair-apart :
        (name path_index version index : Str) (k : Tracking)
        → (path_index ≡ default_index → version ≡ latest)
        → pair_collides path_index version index ≡ ok false
        → track_pair tree_map replace_map latest root refuses name path_index version index
          ≡ ok (some k)
        → k.tracker.path_index ≢ default_index
    unfolding track_pair
    track_pair-apart name path_index version index k last h t =
        elim (Bool-cases (version == latest)) [
          | inl v ↦
              let is = track_pair-latest name path_index version index k v t in
              λ e. pair_collides-latest path_index version index h v (sym is ∙ e)
          | inr v ↦
              elim (Result-cases
                (get_path_from_leaf_index tree_map version (int_value (parse_int index)))) [
                  | inr (x, g) ↦ absurd (ground (arith, v, g, t))
                  | inl (path, g) ↦
                      migrated-apart name path_index path k
                        (λ e. ground (arith, v, last e, str_eq.same_iff version latest))
                        (ground (arith, v, g, t))
                        (λ path' r.
                          pair_collides-updated path_index version index path path' h v g r)
                ]
        ]

    tracked_parts-apart :
        (name path_index : Str) (parts : List Str) (k : Tracking)
        → IsLatest
        → split b'.' path_index ≡ parts
        → parts_collide path_index parts ≡ ok false
        → tracked_parts tree_map replace_map latest root refuses name path_index parts ≡ ok (some k)
        → k.tracker.path_index ≢ default_index
    unfolding parts_collide tracked_parts
    tracked_parts-apart name path_index [] k l e h t = absurd (ground (arith, t))
    tracked_parts-apart name path_index (version ∷ []) k l e h t = absurd (ground (arith, t))
    tracked_parts-apart name path_index (version ∷ index ∷ []) k l e h t =
        track_pair-apart name path_index version index k
          (λ same. l version index (ap (split b'.') (sym same) ∙ e)) h t
    tracked_parts-apart name path_index (version ∷ index ∷ part ∷ parts) k l e h t =
        absurd (ground (arith, t))

    track_resource-apart :
        (r : Labelled) (k : Tracking)
        → IsLatest
        → collides r ≡ ok false
        → track_resource tree_map replace_map latest root refuses r ≡ ok (some k)
        → k.tracker.path_index ≢ default_index
    unfolding collides track_resource
    track_resource-apart r k l h t = elim (Option-cases r.path_index) [
      | inl q ↦ absurd (ground (arith, q, t))
      | inr (path_index, q) ↦ elim (Bool-cases (has_byte b'.' path_index)) [
        | inr b ↦ absurd (ground (arith, q, b, t))
        | inl b ↦
            tracked_parts-apart r.name path_index (split b'.' path_index) k l refl
              (ground (arith, q, b, h)) (ground (arith, q, b, t))
      ]
    ]

    -- Without a collision, no other key Secret of the list gets a tracker with the path index that the
    -- default key is to get, when the trackers are rebuilt with whatever writes refused. The
    -- default index is one of the latest version.
    pub track_resource-has_default_ltpa_key_collision :
        (rs : List Labelled)
        → ((version index : Str)
            → split b'.' default_index ≡ version ∷ index ∷ []
            → version ≡ latest)
        → has_default_ltpa_key_collision root rs ≡ ok false
        → All
            (λ r.
              r.name ≢ root
              → (k : Tracking)
              → track_resource tree_map replace_map latest root refuses r ≡ ok (some k)
              → k.tracker.path_index ≢ default_index)
            rs
    unfolding has_default_ltpa_key_collision
    track_resource-has_default_ltpa_key_collision [] l h = tt
    track_resource-has_default_ltpa_key_collision (r ∷ rs) l h = (
      λ n k t.
          track_resource-apart r k l
            (elim (Result-cases (collides r)) [
              | inl (b, q) ↦ ground (arith, q, h, n, str_eq.same_iff r.name root)
              | inr (x, q) ↦ absurd (ground (arith, q, h, n, str_eq.same_iff r.name root))
            ])
            t,
      track_resource-has_default_ltpa_key_collision rs l (elim (Result-cases (collides r)) [
        | inl (b, q) ↦ ground (arith, q, h)
        | inr (x, q) ↦ ground (arith, q, h)
      ]),
    )
