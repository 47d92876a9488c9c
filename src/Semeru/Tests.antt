-- ===== src/Semeru/Tests.antt =====
-- Instances of the theorems on the Semeru compiler, and tests of its functions.
use open_liberty_operator.Common.{
  ◌≤◌, ℕ, ◌<◌, codes, Bool, true, false, List, [], ◌∷◌, ◌++◌, none, some, pos, ◌≡◌, refl, All,
  arith, format_nat, format_int, parse_int, str_beq, has_prefix, has_substring, split,
}
use open_liberty_operator.Semeru.{
  App, get_generation, get_selectors, get_labels, get_semeru_compiler_name,
}
use open_liberty_operator.Semeru.Ports.{
  upgrade_semeru_health_ports, deployed, service_ports, container_ports, probe_port, health_port_of,
}
use open_liberty_operator.Semeru.Cleanup.{remove_generation, delete_completed_semeru_instances}
use open_liberty_operator.Semeru.Reconcile.{
  Answers, Round, applied, run_round, run_rounds, reconcile_semeru_compiler,
}
use open_liberty_operator.Semeru.Listed.{listed, deletions}
use open_liberty_operator.Semeru.Routes.{
  upgrade-deployed, resolve, service_ports-resolve, Selects, get_selectors-Selects,
}
use open_liberty_operator.Semeru.History.{IsTracked}
use open_liberty_operator.Semeru.Rounds.{new_status, reconciled_after, run_round-cleaned}
use open_liberty_operator.Semeru.Growth.{IsAt, next_generation, replaces, IsAt-run_round}

abbrev app : App
app = record {
  name = codes "shop";
  namespace = codes "web";
  group_name = codes "apps.openliberty.io";
}

abbrev answers : Answers
answers = record {
  enabled = true;
  health = none;
  containers_of = λ n. none;
  cert_manager = true;
  is_openshift = false;
  service = applied false true;
  issuer_fails = false;
  certificate_fails = false;
  secret_fails = false;
  deployment_fails = false;
  deletion_fails = false;
}

abbrev round : Bool → Round
round b = record { image_changed = b; answers = answers; ready = true; refuses = λ r. false }

IsAt-run_round_example :
    let s = run_rounds app (round false ∷ []) new_status in
    (c : ℕ) × (c ≤ 2)
    × IsAt c s.references
    × IsTracked 4 s.references
    × IsAt
        (next_generation true (replaces app (round true) s) c)
        (run_round app (round true) s).0.references
IsAt-run_round_example = IsAt-run_round app (round false ∷ []) (round true) (omega arith)

-- The second reconcile is for a new image, and deletes the resources of the first generation.
run_round-cleaned_example :
    (g : ℕ) × (gs : List ℕ) × ((reconciled_after app
        (round false ∷ [])
        (round true)).status.references
      ≡ some
          (record { generation = some (format_nat g); completed = some (listed (gs ++ (g ∷ []))) }))
    × All (λ x. x < g) gs
    × ((run_round app (round true) (run_rounds app (round false ∷ []) new_status)).0.references
        ≡ some (record { generation = some (format_nat g); completed = some (format_nat g) }))
    × ((run_round app (round true) (run_rounds app (round false ∷ []) new_status)).1
        ≡ deletions true (get_semeru_compiler_name app) gs)
unfolding reconcile_semeru_compiler run_rounds run_round
run_round-cleaned_example =
    run_round-cleaned app (round false ∷ []) (round true) (omega arith) refl refl refl (λ r. refl)

second_completed :
    (run_rounds app (round false ∷ round true ∷ []) new_status).references
    ≡ some (record { generation = some (codes "2"); completed = some (codes "2") })
unfolding run_rounds run_round format_int str_beq has_substring split get_generation parse_int
    delete_completed_semeru_instances
second_completed = refl

upgrade-deployed_example :
    upgrade_semeru_health_ports (some (pos 38700)) (some (deployed none)) ≡ true
unfolding health_port_of
upgrade-deployed_example = upgrade-deployed none (some (pos 38700))

service_ports-resolve_example :
    All (λ p. resolve p.target_port (container_ports none) ≡ some p.port) (service_ports none [])
    × (resolve (probe_port none) (container_ports none) ≡ some (pos 38600))
unfolding health_port_of
service_ports-resolve_example = service_ports-resolve none (omega arith)

get_selectors-Selects_example : Selects (get_selectors app none) (get_labels app none)
get_selectors-Selects_example = get_selectors-Selects app none

-- An old generation behind the current one leaves the list too.
removed_behind : remove_generation (codes "1") (codes "2,1") ≡ codes "2"
unfolding remove_generation str_beq has_prefix
removed_behind = refl

-- Between others, the text of a generation is found inside a longer number.
removed_inside : remove_generation (codes "1") (codes "21,22,1") ≡ codes "222,1"
unfolding remove_generation str_beq has_prefix
removed_inside = refl
