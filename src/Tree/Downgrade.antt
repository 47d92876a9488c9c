-- ===== src/Tree/Downgrade.antt =====
-- The migration of a path ends: each round of a downgrade goes to a lower version, and the keys of the
-- replace map up to the version bound the rounds.
use Prim.Native.Nat.{Ordering}
use open_liberty_operator.Common.{
  ℕ, zero, suc, ◌+◌, ◌<◌, ◌≤◌, Str, ◌==◌, str_eq, nat_eq, Bool, true, false, not, List, [], ◌∷◌,
  none, some, ℤ, pos, negsuc, ltb_ℤ, leb_ℤ, Result, ok, err, is_some, ◌||◌, if◌then◌else◌, length,
  map, ◌≡◌, ◌≢◌, refl, arith, Bool-cases, Option-cases, Result-cases, inl, inr,
}
use open_liberty_operator.Version.{compare_operand_version, is_valid_operand_version}
use open_liberty_operator.Version.Compare.{lex, numbers, sign, compare-lex_above}
use open_liberty_operator.Version.Order.{lex-flip, lex_refl, lex_trans}
use open_liberty_operator.Tree.Node.{Entries}
use open_liberty_operator.Tree.Index.{first_segment}
use open_liberty_operator.Tree.Maps.{
  Labels, ReplaceMap, lookup, LatestError, bad_key, no_version, comparison_panics,
  bad_operand_version, get_latest_operand_version,
}
use open_liberty_operator.Tree.Replace.{
  ReplaceError, no_upgrade_path, panics, out_of_fuel, ◌>>=◌, compared, insert_version,
  sort_versions, get_sorted_keys_from_replace_map, labels_of, may_downgrade, step_down, downgrade,
  upgrade, keys_above, latest_or_empty, replace_path,
}

-- The run does not stop for want of fuel.
abbrev pub Ends : {A : Type 0} → Result ReplaceError A → Type 0
Ends r = r ≢ err out_of_fuel

bind-Ends :
    {A B : Type 0} (r : Result ReplaceError A) (f : A → Result ReplaceError B)
    → Ends r
    → ((a : A) → Ends (f a))
    → Ends (r >>= f)
bind-Ends (err no_upgrade_path) f h k = λ e. cc
bind-Ends (err panics) f h k = λ e. cc
bind-Ends (err out_of_fuel) f h k = absurd (h refl)
bind-Ends (ok a) f h k = k a

ok-Ends : {A : Type 0} (a : A) → Ends (ok a)
ok-Ends a = λ e. cc

either-Ends :
    {A : Type 0} (b : Bool) (x y : Result ReplaceError A)
    → Ends x
    → Ends y
    → Ends (if b then x else y)
either-Ends true x y h k = h
either-Ends false x y h k = k

compared-Ends : (a b : Str) → Ends (compared a b)
compared-Ends a b = elim (Option-cases (compare_operand_version a b)) [
  | inl e ↦ λ h. ground (arith, e, h)
  | inr (d, e) ↦ λ h. ground (arith, e, h)
]

-- Whether the version `k` is not above `v`.
abbrev up_to : Str → Str → Bool
up_to v k = elim (lex (numbers k) (numbers v)) [ Ordering.gt ↦ false | _ ↦ true ]

keys_up_to : Str → ReplaceMap → ℕ
keys_up_to v [] = 0
keys_up_to v ((k, labels) ∷ m) = (if up_to v k then 1 else 0) + keys_up_to v m

keys_up_to-le : (v : Str) (m : ReplaceMap) → keys_up_to v m ≤ length m
unfolding keys_up_to
keys_up_to-le v [] = omega arith
keys_up_to-le v ((k, labels) ∷ m) = ground (arith, keys_up_to-le v m)

module _ (v w : Str) (above : lex (numbers v) (numbers w) ≡ Ordering.gt) where
  up_to-lower : (k : Str) → up_to w k ≡ true → up_to v k ≡ true
  up_to-lower k h = ground (
    arith,
    above,
    lex-flip (numbers v) (numbers w),
    lex_trans (numbers k) (numbers w) (numbers v),
  )

  keys_up_to-lower : (m : ReplaceMap) → keys_up_to w m ≤ keys_up_to v m
  unfolding keys_up_to
  keys_up_to-lower [] = omega arith
  keys_up_to-lower ((k, labels) ∷ m) = ground (arith, up_to-lower k, keys_up_to-lower m)

  -- A key is lost on the way down from it.
  keys_up_to-lost : (m : ReplaceMap) → is_some (lookup v m) ≡ true → keys_up_to w m < keys_up_to v m
  unfolding keys_up_to lookup
  keys_up_to-lost [] h = absurd (cc)
  keys_up_to-lost ((k, labels) ∷ m) h = elim (Bool-cases (k == v)) [
    | inl same ↦
        let e : k ≡ v = ground (arith, same, str_eq.same_iff k v) in
        ground (arith, above, e, lex_refl (numbers v), keys_up_to-lower m)
    | inr other ↦ ground (arith, other, h, up_to-lower k, keys_up_to-lost m)
  ]

positive : (d : ℤ) → ltb_ℤ (pos 0) d ≡ true → sign d ≡ Ordering.gt
positive (pos zero) h = absurd (ground arith)
positive (pos (suc n)) h = refl
positive (negsuc n) h = absurd (ground arith)

-- The guard of a downgrade holds only for a version below.
may_downgrade_above :
    (version potential latest : Str)
    → may_downgrade version potential latest ≡ ok true
    → lex (numbers version) (numbers potential) ≡ Ordering.gt
unfolding may_downgrade
may_downgrade_above version potential latest h =
    elim (Option-cases (compare_operand_version version potential)) [
      | inl e ↦ absurd (ground (arith, e, h))
      | inr (d, e) ↦ compare-lex_above version potential d e (positive d (ground (arith, e, h)))
    ]

may_downgrade-Ends :
    (version potential latest : Str) → Ends (may_downgrade version potential latest)
unfolding may_downgrade
may_downgrade-Ends version potential latest =
    bind-Ends (compared version potential) _ (compared-Ends version potential) (λ c.
      either-Ends (ltb_ℤ (pos 0) c) _ _
        (bind-Ends (compared potential latest) _ (compared-Ends potential latest)
          (λ d. ok-Ends (leb_ℤ (pos 0) d)))
        (ok-Ends false))

step_down-Ends :
    (latest version path : Str) (labels : Labels) → Ends (step_down latest version path labels)
unfolding step_down
step_down-Ends latest version path [] = λ e. cc
step_down-Ends latest version path ((prev, next) ∷ labels) =
    let rest = step_down-Ends latest version path labels in
    either-Ends (next == path) _ _
      (bind-Ends (may_downgrade version (first_segment prev) latest) _
        (may_downgrade-Ends version (first_segment prev) latest)
        (λ b. either-Ends b _ _ (ok-Ends (some prev)) rest))
      rest

-- The step that is taken goes to a version below.
step_down_above :
    (latest version path : Str) (labels : Labels) (prev : Str)
    → step_down latest version path labels ≡ ok (some prev)
    → lex (numbers version) (numbers (first_segment prev)) ≡ Ordering.gt
unfolding step_down
step_down_above latest version path [] prev h = absurd (ground arith)
step_down_above latest version path ((p, next) ∷ labels) prev h = elim (Bool-cases (next == path)) [
  | inr other ↦ step_down_above latest version path labels prev (rw (other, step_down) at h)
  | inl same ↦ elim (Result-cases (may_downgrade version (first_segment p) latest)) [
    | inr (x, e) ↦ absurd (ground (arith, same, e, h))
    | inl (true, e) ↦
        let is : p ≡ prev = ground (arith, same, e, h) in
        rw (← is) (may_downgrade_above version (first_segment p) latest e)
    | inl (false, e) ↦ step_down_above latest version path labels prev (ground (arith, same, e, h))
  ]
]

-- With more fuel than keys up to the version, a downgrade does not run out of it.
downgrade-Ends :
    (fuel : ℕ) (m : ReplaceMap) (latest version path : Str)
    → keys_up_to version m < fuel
    → Ends (downgrade fuel m latest version path)
unfolding downgrade
downgrade-Ends zero m latest version path h = absurd (omega arith)
downgrade-Ends (suc fuel) m latest version path h = elim (Bool-cases (is_some (lookup version m))) [
  | inr gone ↦ λ e. ground (arith, gone, e)
  | inl there ↦
      let labels = labels_of version m in
      let stop = step_down-Ends latest version path labels in
      elim (Result-cases (step_down latest version path labels)) [
        | inr (x, q) ↦ λ e. ground (arith, there, q, e, stop)
        | inl (none, q) ↦ λ e. ground (arith, there, q, e)
        | inl (some prev, q) ↦
            let lost =
              keys_up_to-lost version (first_segment prev)
                (step_down_above latest version path labels prev q) m there in
            let rest =
              downgrade-Ends fuel m latest (first_segment prev) prev (omega (arith, lost, h)) in
            elim (Bool-cases (first_segment prev == version)) [
              | inl same ↦ λ e. ground (arith, there, q, same, e)
              | inr other ↦ λ e. ground (arith, there, q, other, e, rest)
            ]
      ]
]

insert_version-Ends : (k : Str) (js : List Str) → Ends (insert_version k js)
unfolding insert_version
insert_version-Ends k [] = ok-Ends (k ∷ [])
insert_version-Ends k (j ∷ js) = bind-Ends (compared j k) _ (compared-Ends j k) (λ d.
    either-Ends (ltb_ℤ d (pos 0)) _ _
      (bind-Ends (insert_version k js) _ (insert_version-Ends k js) (λ r. ok-Ends (j ∷ r)))
      (ok-Ends (k ∷ j ∷ js)))

sort_versions-Ends : (ks : List Str) → Ends (sort_versions ks)
unfolding sort_versions
sort_versions-Ends [] = ok-Ends []
sort_versions-Ends (k ∷ ks) =
    bind-Ends (sort_versions ks) (insert_version k) (sort_versions-Ends ks) (insert_version-Ends k)

keys_above-Ends : (version : Str) (keys : List Str) → Ends (keys_above version keys)
unfolding keys_above
keys_above-Ends version [] = ok-Ends []
keys_above-Ends version (key ∷ []) =
    bind-Ends (compared key version) _ (compared-Ends key version) (λ d. ok-Ends (key ∷ []))
keys_above-Ends version (key ∷ next ∷ keys) =
    bind-Ends (compared key version) _ (compared-Ends key version) (λ d.
      either-Ends (ltb_ℤ (pos 0) d) _ _ (ok-Ends (key ∷ next ∷ keys))
        (keys_above-Ends version (next ∷ keys)))

latest_or_empty-Ends : (r : Result LatestError Str) → Ends (latest_or_empty r)
latest_or_empty-Ends (ok v) = ok-Ends v
latest_or_empty-Ends (err bad_key) = ok-Ends []
latest_or_empty-Ends (err no_version) = ok-Ends []
latest_or_empty-Ends (err comparison_panics) = λ e. cc
latest_or_empty-Ends (err bad_operand_version) = ok-Ends []

-- `ReplacePath` ends, whatever the path, the versions, the tree and the replace map are: the loop of
-- its downgrade takes at most one round more than the replace map has keys.
pub replace_path-Ends :
    (path target : Str) (tree_map : Entries) (replace_map : ReplaceMap)
    → Ends (replace_path path target tree_map replace_map)
unfolding replace_path
replace_path-Ends path target tree_map replace_map =
    let version = first_segment path in
    let latest = latest_or_empty (get_latest_operand_version tree_map target) in
    bind-Ends (get_sorted_keys_from_replace_map replace_map) _
      (unfold get_sorted_keys_from_replace_map in sort_versions-Ends (map (λ e. e.0) replace_map))
      (λ keys.
        either-Ends
          (not (is_valid_operand_version version) || not (is_valid_operand_version target)) _ _
          (λ e. cc)
          (bind-Ends (compared version target) _ (compared-Ends version target) (λ c.
            bind-Ends latest _ (latest_or_empty-Ends (get_latest_operand_version tree_map target))
              (λ top.
                either-Ends (ltb_ℤ (pos 0) c) _ _
                  (downgrade-Ends (suc (suc (length replace_map))) replace_map top version path
                    (omega (arith, keys_up_to-le version replace_map)))
                  (either-Ends (ltb_ℤ c (pos 0)) _ _
                    (bind-Ends (keys_above version keys) _ (keys_above-Ends version keys)
                      (λ above. ok-Ends (upgrade replace_map target above version path)))
                    (ok-Ends path))))))
