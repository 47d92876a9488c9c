-- ===== src/Tree/Latest.antt =====
-- `getLatestTreeMapOperandVersion` returns the greatest version of the tree up to the maximum.
use Prim.Native.Nat.{Ordering}
use open_liberty_operator.Common.{
  Str, codes, str_eq, nat_eq, Bool, true, false, List, [], ◌∷◌, ok, Result-cases, is_some,
  if◌then◌else◌, ◌≡◌, ◌≢◌, refl, sym, arith, In, All, Bool-cases, inl, inr, subst, ◌⊎◌,
}
use open_liberty_operator.Version.{is_operand_version_string}
use open_liberty_operator.Version.Compare.{lex, numbers, compare-lex_shaped}
use open_liberty_operator.Version.Order.{lex-flip, lex_refl, lex_trans}
use open_liberty_operator.Tree.Node.{Entries, find, keys_of}
use open_liberty_operator.Tree.Maps.{newer, latest_from, get_latest_tree_map_operand_version}

-- `a` is a version not above `b`.
abbrev pub UpTo : Str → Str → Type 0
UpTo b a = lex (numbers a) (numbers b) ≢ Ordering.gt

-- A comparison of two version strings, by the order of their numbers.
abbrev pub is_below : Str → Str → Bool
is_below a b = elim (lex (numbers a) (numbers b)) [ Ordering.lt ↦ true | _ ↦ false ]

-- One round takes the version exactly when it lies above the best so far and not above the maximum.
newer_lem :
    (max best version : Str)
    → is_operand_version_string max ≡ true
    → is_operand_version_string best ≡ true
    → is_operand_version_string version ≡ true
    → newer max best version
      ≡ ok
          (if is_below best version then (if is_below max version then best else version) else best)
unfolding newer
newer_lem max best version hm hb hv =
    let (d, e, s) = compare-lex_shaped best version hb hv in
    let (d', e', s') = compare-lex_shaped max version hm hv in ground (arith, e, e', s, s')

UpTo-refl : (a : Str) → UpTo a a
UpTo-refl a = λ e. ground (arith, lex_refl (numbers a), e)

UpTo-trans : (a b c : Str) → UpTo b a → UpTo c b → UpTo c a
UpTo-trans a b c = lex_trans (numbers a) (numbers b) (numbers c)

below-UpTo : (a b : Str) → is_below a b ≡ true → UpTo b a
below-UpTo a b h = λ e. ground (arith, h, e)

not_below-UpTo : (a b : Str) → is_below a b ≡ false → UpTo a b
not_below-UpTo a b h = λ e. ground (arith, h, e, lex-flip (numbers a) (numbers b))

below-not_UpTo : (a b : Str) → is_below a b ≡ true → ¬ (UpTo a b)
below-not_UpTo a b h u = u (ground (arith, h, lex-flip (numbers a) (numbers b)))

-- What a run of the loop from `best` reaches: a greatest version up to the maximum.
IsBest : Str → Str → List Str → Str → Type 0
IsBest max best versions r =
    UpTo r best
    × ((r ≡ best) ⊎ (In r versions × UpTo max r))
    × All (λ v. UpTo max v → UpTo r v) versions

module _ (max best v : Str) (vs : List Str) (r : Str) where
  keep-IsBest : is_below best v ≡ false → IsBest max best vs r → IsBest max best (v ∷ vs) r
  unfolding IsBest
  keep-IsBest h (u, from, all) = (
    u,
    elim from [ inl e ↦ inl e | inr (m, w) ↦ inr (inr m, w) ],
    (λ _. UpTo-trans v best r (not_below-UpTo best v h) u, all),
  )

  skip-IsBest : is_below max v ≡ true → IsBest max best vs r → IsBest max best (v ∷ vs) r
  unfolding IsBest
  skip-IsBest h (u, from, all) = (
    u,
    elim from [ inl e ↦ inl e | inr (m, w) ↦ inr (inr m, w) ],
    (λ w. absurd (below-not_UpTo max v h w), all),
  )

  take-IsBest :
      is_below best v ≡ true
      → is_below max v ≡ false
      → IsBest max v vs r
      → IsBest max best (v ∷ vs) r
  unfolding IsBest
  take-IsBest h k (u, from, all) = (
    UpTo-trans best v r (below-UpTo best v h) u,
    elim from [
      | inl e ↦ inr (inl e, subst (UpTo max) (sym e) (not_below-UpTo max v k))
      | inr (m, w) ↦ inr (inr m, w)
    ],
    (λ _. u, all),
  )

module _ (max : Str) (hm : is_operand_version_string max ≡ true) where
  latest_from-IsBest :
      (best : Str) (versions : List Str) (r : Str)
      → is_operand_version_string best ≡ true
      → latest_from max best versions ≡ ok r
      → IsBest max best versions r
  unfolding latest_from
  latest_from-IsBest best [] r hb h =
      let same : best ≡ r = ground arith in
      unfold IsBest in subst (IsBest max best []) same (UpTo-refl best, inl refl, tt)
  latest_from-IsBest best (v ∷ vs) r hb h = elim (Bool-cases (is_operand_version_string v)) [
    | inr bad ↦ absurd (ground arith)
    | inl hv ↦
        let n = newer_lem max best v hm hb hv in
        elim (Bool-cases (is_below best v)) [
          | inr old ↦
              keep-IsBest max best v vs r old
                (latest_from-IsBest best vs r hb (rw (hv, n, old, latest_from) at h))
          | inl new ↦ elim (Bool-cases (is_below max v)) [
            | inl high ↦
                skip-IsBest max best v vs r high
                  (latest_from-IsBest best vs r hb (rw (hv, n, new, high, latest_from) at h))
            | inr fits ↦
                take-IsBest max best v vs r new fits
                  (latest_from-IsBest v vs r hv (rw (hv, n, new, fits, latest_from) at h))
          ]
        ]
  ]

-- `getLatestTreeMapOperandVersion`, when it returns a version, returns a key of the tree, not above
-- the maximum unless it is the starting value `v0_0_0`, and no key up to the maximum lies above it.
-- The maximum is a valid version string.
pub get_latest-greatest :
    (tree_map : Entries) (max r : Str)
    → is_operand_version_string max ≡ true
    → get_latest_tree_map_operand_version tree_map max ≡ ok r
    → (is_some (find r tree_map) ≡ true)
      × ((r ≡ codes "v0_0_0") ⊎ (In r (keys_of tree_map) × UpTo max r))
      × All (λ v. UpTo max v → UpTo r v) (keys_of tree_map)
unfolding get_latest_tree_map_operand_version IsBest
get_latest-greatest tree_map max r hm h =
    elim (Result-cases (latest_from max (codes "v0_0_0") (keys_of tree_map))) [
      | inr (e, failed) ↦ absurd (ground (arith, failed, h))
      | inl (best, reached) ↦
          let start : is_operand_version_string (codes "v0_0_0") ≡ true =
            unfold is_operand_version_string in refl in
          let found : is_some (find best tree_map) ≡ true = ground (arith, reached, h) in
          let same : best ≡ r = ground (arith, reached, found, h) in
          let (u, from, all) =
            latest_from-IsBest max hm (codes "v0_0_0") (keys_of tree_map) best start reached in
          rw (sym same) (found, from, all)
    ]
