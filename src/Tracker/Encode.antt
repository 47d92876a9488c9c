-- ===== src/Tracker/Encode.antt =====
-- The trackers kept in a Secret are read back as they were, without the subleases.
use open_liberty_operator.Common.{
  suc, Str, ◌==◌, str_eq, nat_eq, Bool, false, ◌&&◌, List, [], ◌∷◌, ◌++◌, map, some, split, join,
  has_byte, length, ok, ◌≡◌, refl, sym, ap, ◌∙◌, arith, All, Lacks, split-join, split-Lacks,
  Bool-cases, inl, inr, has_byte-Lacks, str_beq,
}
use mathlib.Core.List.{cons-ne-nil}
use open_liberty_operator.Tracker.{LeaderTracker}
use open_liberty_operator.Tracker.Codec.{
  concatenated, customize_leader_tracker, get_comma_separated_array, populate, trackers_of,
}

-- The tracker as the Secret keeps it.
abbrev pub stored : LeaderTracker → LeaderTracker
stored t = record {
  name = t.name;
  owner = t.owner;
  path_index = t.path_index;
  path = t.path;
  sublease = [];
}

-- Whether the resource is described by no name, path index or path.
abbrev pub is_blank : LeaderTracker → Bool
is_blank t = t.name == [] && t.path_index == [] && t.path == []

-- No field that is kept holds a comma, and the tracker describes a resource.
abbrev pub IsStorable : LeaderTracker → Type 0
IsStorable t =
    (is_blank t ≡ false)
    × Lacks b',' t.name
    × Lacks b',' t.owner
    × Lacks b',' t.path_index
    × Lacks b',' t.path

concatenated-join :
    (field : LeaderTracker → Str) (ts : List LeaderTracker)
    → concatenated field ts ≡ join b',' (map field ts)
unfolding concatenated join
concatenated-join field [] = refl
concatenated-join field (t ∷ []) = refl
concatenated-join field (t ∷ u ∷ ts) =
    ap (λ s. field t ++ (b',' ∷ s)) (concatenated-join field (u ∷ ts))

array-split : (s : Str) → get_comma_separated_array s ≡ split b',' s
unfolding get_comma_separated_array
array-split s = elim (Bool-cases (has_byte b',' s)) [
  | inl h ↦ rw h refl
  | inr h ↦ rw h (sym (split-Lacks b',' s (has_byte-Lacks b',' s h)))
]

All-map :
    (field : LeaderTracker → Str) (ts : List LeaderTracker)
    → All (λ u. Lacks b',' (field u)) ts
    → All (Lacks b',') (map field ts)
All-map field [] h = tt
All-map field (t ∷ ts) (l, h) = (l, All-map field ts h)

columns :
    (field : LeaderTracker → Str) (t : LeaderTracker) (ts : List LeaderTracker)
    → All (λ u. Lacks b',' (field u)) (t ∷ ts)
    → get_comma_separated_array (concatenated field (t ∷ ts)) ≡ map field (t ∷ ts)
columns field t ts h =
    array-split (concatenated field (t ∷ ts))
    ∙ ap (split b',') (concatenated-join field (t ∷ ts))
    ∙ split-join b',' (map field (t ∷ ts)) (cons-ne-nil (field t) (map field ts))
        (All-map field (t ∷ ts) h)

concatenated-ne-nil :
    (field : LeaderTracker → Str) (t u : LeaderTracker) (ts : List LeaderTracker)
    → (concatenated field (t ∷ u ∷ ts) == []) ≡ false
unfolding concatenated str_beq
concatenated-ne-nil field t u ts = appended (field t)
  where
    appended : (s : Str) → (s ++ (b',' ∷ concatenated field (u ∷ ts)) == []) ≡ false
    appended [] = refl
    appended (c ∷ s) = refl

some_text :
    (t : LeaderTracker) (ts : List LeaderTracker)
    → is_blank t ≡ false
    → ((concatenated (λ u. u.owner) (t ∷ ts) == [])
        && (concatenated (λ u. u.name) (t ∷ ts) == [])
        && (concatenated (λ u. u.path_index) (t ∷ ts) == [])
        && (concatenated (λ u. u.path) (t ∷ ts) == []))
      ≡ false
unfolding concatenated
some_text t [] h = ground (arith, h)
some_text t (u ∷ ts) h = ground (arith, concatenated-ne-nil (λ u. u.name) t u ts)

length-map :
    (field : LeaderTracker → Str) (ts : List LeaderTracker) → length (map field ts) ≡ length ts
length-map field [] = refl
length-map field (t ∷ ts) = ap suc (length-map field ts)

populate-columns :
    (ts : List LeaderTracker)
    → populate
        (map (λ t. t.owner) ts)
        (map (λ t. t.name) ts)
        (map (λ t. t.path_index) ts)
        (map (λ t. t.path) ts)
      ≡ ok (map stored ts)
unfolding populate
populate-columns [] = refl
populate-columns (t ∷ ts) = rw (populate-columns ts) refl

All-field :
    (P Q : LeaderTracker → Type 0) (ts : List LeaderTracker)
    → ((t : LeaderTracker) → P t → Q t)
    → All P ts
    → All Q ts
All-field P Q [] f h = tt
All-field P Q (t ∷ ts) f (p, h) = (f t p, All-field P Q ts f h)

-- What `CustomizeLeaderTracker` writes for a list of trackers is read back by `GetLeaderTracker` as
-- the same list without the subleases, for fields without a comma and trackers whose name, path index
-- and path are not all empty.
pub trackers_of-customize :
    (ts : List LeaderTracker)
    → All IsStorable ts
    → trackers_of (customize_leader_tracker (some ts)) ≡ ok (map stored ts)
unfolding trackers_of customize_leader_tracker str_beq
trackers_of-customize [] h = refl
trackers_of-customize (t ∷ ts) h =
    let ns = columns (λ t. t.name) t ts (All-field IsStorable _ (t ∷ ts) (λ _ p. p.1) h) in
    let os = columns (λ t. t.owner) t ts (All-field IsStorable _ (t ∷ ts) (λ _ p. p.2) h) in
    let is = columns (λ t. t.path_index) t ts (All-field IsStorable _ (t ∷ ts) (λ _ p. p.3) h) in
    let ps = columns (λ t. t.path) t ts (All-field IsStorable _ (t ∷ ts) (λ _ p. p.4) h) in
    let some = some_text t ts h.0.0 in
    let same = λ (f : LeaderTracker → Str). length-map f (t ∷ ts) in
    rw (ns, os, is, ps)
      (ground (
        arith,
        some,
        same (λ t. t.name),
        same (λ t. t.owner),
        same (λ t. t.path_index),
        same (λ t. t.path),
        populate-columns (t ∷ ts),
      ))
