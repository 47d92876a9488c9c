-- ===== src/Semeru/Cleanup.antt =====
-- `deleteCompletedSemeruInstances`: the resources of the older generations are deleted, and then the
-- generations leave the list of the completed ones. Which deletions the cluster refuses is a parameter.
use open_liberty_operator.Common.{
  Str, codes, ◌==◌, str_eq, Bool, true, false, not, ◌||◌, List, [], ◌∷◌, ◌++◌, Option, none, some,
  ℤ, ltb_ℤ, parse_int, int_value, split, remove_first, if◌then◌else◌,
}
use open_liberty_operator.Semeru.{References, App, get_semeru_compiler_name}

pub data Kind : Type 0 where
  deployment service certificate secret : Kind

pub record Resource : Type 0 where
  pub kind : Kind
  pub name : Str

-- The resources of one generation, in the order in which they are deleted.
unfoldable pub resources_of : Bool → Str → List Resource
resources_of use_cert_manager n =
    record { kind = deployment; name = n }
    ∷ record { kind = service; name = n }
    ∷ (if use_cert_manager
        then record { kind = certificate; name = n }
          ∷ record { kind = secret; name = n ++ codes "-tls-cm" }
          ∷ []
        else [])

-- The calls of `DeleteResource` up to the first that fails, and whether none failed.
unfoldable pub delete_resources : (Resource → Bool) → List Resource → List Resource × Bool
delete_resources refuses [] = ([], true)
delete_resources refuses (r ∷ rs) =
    let (calls, done) = delete_resources refuses rs in
    if refuses r then (r ∷ [], false) else (r ∷ calls, done)

-- What the first loop has done: the calls, and the generations that are marked for deletion, or
-- none after an error.
pub record Deletion : Type 0 where
  pub calls : List Resource
  pub marked : Option (List Str)

abbrev pub atoi_value : Str → ℤ
atoi_value s = int_value (parse_int s)

abbrev mark : Str → Deletion → Deletion
mark g d = record {
  calls = d.calls;
  marked = elim d.marked [ none ↦ none | some gs ↦ some (g ∷ gs) ];
}

abbrev after : List Resource → Deletion → Deletion
after calls d = record { calls = calls ++ d.calls; marked = d.marked }

-- The loop over the completed generations.
unfoldable pub delete_older : (Resource → Bool) → Bool → Str → ℤ → List Str → Deletion
unfolding delete_resources resources_of
delete_older refuses use_cert_manager compiler current [] = record { calls = []; marked = some [] }
delete_older refuses use_cert_manager compiler current (g ∷ gs) =
    let rest = delete_older refuses use_cert_manager compiler current gs in
    let (calls, done) =
      delete_resources refuses (resources_of use_cert_manager (compiler ++ (codes "-" ++ g))) in
    if not (ltb_ℤ (atoi_value g) current)
    then rest
    else if done
    then after calls (mark g rest)
    else record { calls = calls; marked = none }

-- One round of the second loop, on the text of the completed generations.
unfoldable pub remove_generation : Str → Str → Str
unfolding remove_first
remove_generation g completed =
    let shorter = remove_first (g ++ codes ",") completed in
    if completed == shorter then remove_first (codes "," ++ g) completed else shorter

unfoldable pub remove_generations : List Str → Str → Str
unfolding remove_generation
remove_generations [] completed = completed
remove_generations (g ∷ gs) completed = remove_generations gs (remove_generation g completed)

-- What a call leaves: the references, the calls of `DeleteResource`, and whether it succeeded.
pub record Cleaned : Type 0 where
  pub references : Option References
  pub calls : List Resource
  pub succeeded : Bool

abbrev unchanged : Option References → Cleaned
unchanged r = record { references = r; calls = []; succeeded = true }

-- `deleteCompletedSemeruInstances`. Certificates are looked for without OpenShift, or with a
-- cert-manager.
unfoldable pub delete_completed_semeru_instances :
    (Resource → Bool) → Bool → Bool → App → Option References → Cleaned
unfolding delete_older remove_generations get_semeru_compiler_name
delete_completed_semeru_instances refuses is_openshift cm_present a none = unchanged none
delete_completed_semeru_instances refuses is_openshift cm_present a (some r) = elim r.completed [
  | none ↦ unchanged (some r)
  | some completed ↦
      let current = atoi_value (elim r.generation [ none ↦ [] | some g ↦ g ]) in
      let d =
        delete_older refuses (not is_openshift || cm_present) (get_semeru_compiler_name a) current
          (split b',' completed) in
      elim d.marked [
        | none ↦ record { references = some r; calls = d.calls; succeeded = false }
        | some gs ↦ record {
          references = some (record {
            generation = r.generation;
            completed = some (remove_generations gs completed);
          });
          calls = d.calls;
          succeeded = true;
        }
      ]
]
