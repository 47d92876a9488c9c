-- ===== src/Semeru/Reconcile.antt =====
-- `reconcileSemeruCompiler`, and what one reconcile of the application does with the compiler. What
-- the cluster and the other packages answer is an input.
use open_liberty_operator.Common.{
  Str, codes, ◌==◌, str_eq, Bool, true, false, not, ◌&&◌, List, [], ◌∷◌, ◌++◌, Option, none, some,
  ℤ, has_substring, if◌then◌else◌,
}
use open_liberty_operator.Semeru.{
  References, CompilerStatus, App, get_generation, with_generation, create_new_semeru_generation,
  get_semeru_compiler_name_with_generation,
}
use open_liberty_operator.Semeru.Ports.{Container, upgrade_semeru_health_ports}
use open_liberty_operator.Semeru.Cleanup.{Resource, delete_completed_semeru_instances}

-- A `CreateOrUpdate`: its change was not made, or it was made to what the cluster had, and then the
-- write was accepted or not.
pub data Call (A : Type 0) : Type 0 where
  refused : Call A
  applied : A → Bool → Call A

-- What a reconcile reads. Of the Service it is whether it has one of the annotations for a serving
-- certificate.
pub record Answers : Type 0 where
  pub enabled : Bool
  pub health : Option ℤ
  pub containers_of : Str → Option (List Container)
  pub cert_manager : Bool
  pub is_openshift : Bool
  pub service : Call Bool
  pub issuer_fails : Bool
  pub certificate_fails : Bool
  pub secret_fails : Bool
  pub deployment_fails : Bool
  pub deletion_fails : Bool

pub record Status : Type 0 where
  pub references : Option References
  pub compiler : Option CompilerStatus

pub data Failure : Type 0 where
  service_failed issuer_failed certificate_failed no_cert_manager secret_failed : Failure
  deployment_failed deletion_failed : Failure

pub record Reconciled : Type 0 where
  pub status : Status
  pub failure : Option Failure
  pub old_instances : Bool

abbrev failed : Status → Failure → Reconciled
failed s f = record { status = s; failure = some f; old_instances = false }

abbrev tls_secret_of : Option CompilerStatus → Str
tls_secret_of none = []
tls_secret_of (some c) = c.tls_secret_name

-- The change that the `CreateOrUpdate` of the Service makes to the status.
unfoldable pub service_status : Bool → Bool → Str → Str → Option CompilerStatus → CompilerStatus
service_status is_openshift annotated n namespace c = record {
  tls_secret_name =
      if is_openshift && not annotated then n ++ codes "-tls-ocp" else tls_secret_of c;
  service_hostname = n ++ (codes "." ++ (namespace ++ codes ".svc"));
}

-- The generation joins the list of the completed ones; the flag tells of older ones.
unfoldable pub mark_completed : Str → Option References → Option References × Bool
mark_completed current none = (none, false)
mark_completed current (some r) = elim r.completed [
  | none ↦ (some (record { generation = r.generation; completed = some current }), false)
  | some completed ↦
      if completed == current
      then (some r, false)
      else if not (has_substring current completed)
      then (
        some (record {
          generation = r.generation;
          completed = some (completed ++ (codes "," ++ current));
        }),
        true,
      )
      else (some r, true)
]

-- The references once the check for an upgrade is done.
unfoldable pub upgraded : Answers → App → Option References → Option References
unfolding upgrade_semeru_health_ports with_generation create_new_semeru_generation
upgraded c a r =
    let r' = with_generation r in
    if c.enabled
      && upgrade_semeru_health_ports c.health
          (c.containers_of (get_semeru_compiler_name_with_generation a r'))
    then with_generation (create_new_semeru_generation r')
    else r'

-- The status behind the certificate, or a failure.
secured : Answers → Str → Status → Status × Option Failure
secured c n s =
    if c.cert_manager
    then (if c.issuer_fails
        then (s, some issuer_failed)
        else if c.certificate_fails
        then (s, some certificate_failed)
        else (
          record {
            references = s.references;
            compiler = elim s.compiler [
              | none ↦
                  some (record { tls_secret_name = n ++ codes "-tls-cm"; service_hostname = [] })
              | some k ↦ some (record {
                tls_secret_name = n ++ codes "-tls-cm";
                service_hostname = k.service_hostname;
              })
            ];
          },
          none,
        ))
    else if not c.is_openshift
    then (s, some no_cert_manager)
    else (s, none)

-- The steps behind the certificate.
deployed_status : Answers → Status → Reconciled
unfolding mark_completed
deployed_status c s =
    if c.secret_fails
    then failed s secret_failed
    else if c.deployment_fails
    then failed s deployment_failed
    else let (r, old) = mark_completed (get_generation s.references) s.references in
      record {
        status = record { references = r; compiler = s.compiler };
        failure = none;
        old_instances = old;
      }

-- `reconcileSemeruCompiler`.
unfoldable pub reconcile_semeru_compiler : Answers → App → Status → Reconciled
unfolding upgraded service_status secured deployed_status
reconcile_semeru_compiler c a s =
    let r = upgraded c a s.references in
    let n = get_semeru_compiler_name_with_generation a r in
    if c.enabled
    then elim c.service [
      | refused ↦ failed (record { references = r; compiler = s.compiler }) service_failed
      | applied annotated accepted ↦
          let s' : Status = record {
            references = r;
            compiler = some (service_status c.is_openshift annotated n a.namespace s.compiler);
          } in
          if not accepted
          then failed s' service_failed
          else let (s'', e) = secured c n s' in
            elim e [ some f ↦ failed s'' f | none ↦ deployed_status c s'' ]
    ]
    else if c.deletion_fails
    then failed (record { references = r; compiler = s.compiler }) deletion_failed
    else record {
      status = record { references = r; compiler = none };
      failure = none;
      old_instances = false;
    }

-- One reconcile of the application: whether its image has changed, what the compiler's reconcile
-- reads, whether the reconcile gets to its end with the application ready, and which deletions are
-- refused.
pub record Round : Type 0 where
  pub image_changed : Bool
  pub answers : Answers
  pub ready : Bool
  pub refuses : Resource → Bool

abbrev pub bumped : Bool → Status → Status
bumped image_changed s = record {
  references = if image_changed then create_new_semeru_generation s.references else s.references;
  compiler = s.compiler;
}

-- The status after the reconcile, and what it has deleted.
unfoldable pub run_round : App → Round → Status → Status × List Resource
unfolding reconcile_semeru_compiler create_new_semeru_generation
run_round a e s =
    let d = reconcile_semeru_compiler e.answers a (bumped e.image_changed s) in
    elim d.failure [
      | some f ↦ (d.status, [])
      | none ↦
          if d.old_instances && e.ready
          then (let k =
                delete_completed_semeru_instances e.refuses e.answers.is_openshift
                  e.answers.cert_manager a d.status.references in
              (record { references = k.references; compiler = d.status.compiler }, k.calls))
          else (d.status, [])
    ]

unfoldable pub run_rounds : App → List Round → Status → Status
unfolding run_round
run_rounds a [] s = s
run_rounds a (e ∷ es) s = run_rounds a es (run_round a e s).0
