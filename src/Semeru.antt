-- ===== src/Semeru.antt =====
-- The Semeru cloud compiler of an application (internal/controller/semeru_compiler.go): its
-- generations in the status references, and the names, labels and selectors built from them.
pub mod Ports
pub mod Cleanup
pub mod Reconcile
pub mod Client
mod Trust
mod Listed
mod Marking
mod History
mod Step
mod Rounds
mod Growth
mod Routes
mod Tests
use open_liberty_operator.Common.{
  ℕ, Str, codes, ◌==◌, str_eq, Bool, true, false, List, [], ◌∷◌, ◌++◌, Option, none, some, ℤ, pos,
  negsuc, ◌-ℤ◌, wrap64, parse_int, Parsed, parsed, syntax_error, range_error, format_int,
  if◌then◌else◌,
}

-- The two entries of the map `Status.References` that this file reads and writes.
pub record References : Type 0 where
  pub generation : Option Str
  pub completed : Option Str

-- `Status.SemeruCompiler`.
pub record CompilerStatus : Type 0 where
  pub tls_secret_name : Str
  pub service_hostname : Str

-- `createNewSemeruGeneration`; the map is `none` when it is nil.
unfoldable pub create_new_semeru_generation : Option References → Option References
create_new_semeru_generation none = none
create_new_semeru_generation (some r) =
    some (record { generation = some next; completed = r.completed })
  where
    next : Str
    next = elim r.generation [
      | none ↦ format_int (pos 1)
      | some text ↦ elim (parse_int text) [
        | parsed z ↦ format_int (wrap64 (z -ℤ negsuc 0))
        | syntax_error ↦ format_int (pos 1)
        | range_error z ↦ format_int (pos 1)
      ]
    ]

-- `getGeneration`: the generation it returns.
unfoldable pub get_generation : Option References → Str
get_generation none = codes "1"
get_generation (some r) = elim r.generation [ none ↦ codes "1" | some text ↦ text ]

-- `getGeneration`: the references it leaves.
unfoldable pub with_generation : Option References → Option References
with_generation none = none
with_generation (some r) = elim r.generation [
  | none ↦ some (record { generation = some (format_int (pos 1)); completed = r.completed })
  | some text ↦ some r
]

-- What this file reads of an application.
pub record App : Type 0 where
  pub name : Str
  pub namespace : Str
  pub group_name : Str

abbrev pub operator_name : Str
operator_name = codes "open-liberty-operator"

abbrev pub semeru_label_name : Str
semeru_label_name = codes "semeru-compiler"

unfoldable pub get_semeru_compiler_name : App → Str
get_semeru_compiler_name a = a.name ++ codes "-semeru-compiler"

unfoldable pub get_semeru_compiler_name_with_generation : App → Option References → Str
unfolding get_semeru_compiler_name get_generation
get_semeru_compiler_name_with_generation a r =
    get_semeru_compiler_name a ++ (codes "-" ++ get_generation r)

unfoldable pub get_semeru_generation_label_name : App → Str
get_semeru_generation_label_name a = a.group_name ++ codes "/semeru-compiler-generation"

abbrev pub StringMap : Type 0
StringMap = List (Str × Str)

unfoldable pub get : Str → StringMap → Option Str
get k [] = none
get k ((j, v) ∷ m) = if j == k then some v else get k m

-- `m[k] = v`.
unfoldable pub put : Str → Str → StringMap → StringMap
put k v [] = (k, v) ∷ []
put k v ((j, w) ∷ m) = if j == k then (k, v) ∷ m else (j, w) ∷ put k v m

-- `getSelectors`.
unfoldable pub get_selectors : App → Option References → StringMap
unfolding get_semeru_compiler_name_with_generation put
get_selectors a r = put (codes "app.kubernetes.io/part-of") a.name (
    put (codes "app.kubernetes.io/instance") (get_semeru_compiler_name_with_generation a r)
      (put (codes "app.kubernetes.io/component") semeru_label_name []))

-- The entries of `getLabels` but the last.
unfoldable pub fixed_labels : App → Option References → StringMap
unfolding get_semeru_compiler_name_with_generation put
fixed_labels a r = put (codes "app.kubernetes.io/part-of") a.name (
    put (codes "app.kubernetes.io/component") semeru_label_name (
      put (codes "app.kubernetes.io/managed-by") operator_name (
        put (codes "app.kubernetes.io/instance") (get_semeru_compiler_name_with_generation a r)
          (put (codes "app.kubernetes.io/name") (get_semeru_compiler_name a) []))))

-- `getLabels`.
unfoldable pub get_labels : App → Option References → StringMap
unfolding fixed_labels get_semeru_generation_label_name put
get_labels a r = put (get_semeru_generation_label_name a) (get_generation r) (fixed_labels a r)
