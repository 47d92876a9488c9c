-- ===== src/Semeru/Routes.antt =====
-- What the objects of one compiler agree on: its ports, and its selectors and labels.
use open_liberty_operator.Common.{
  Str, codes, ◌==◌, str_eq, str_beq, int_eq, nat_eq, true, false, not, List, [], ◌∷◌, ◌++◌, Option,
  none, some, ℤ, pos, format_int, if◌then◌else◌, ◌≡◌, ◌≢◌, refl, arith, Bool-cases, inl, inr, All,
  negsuc, ◌^◌, ◌<ℤ◌, format_nat, format_nat-injective, ap, sym, has_substring,
  has_substring-append_right, append_assoc,
}
use mathlib.Core.List.{append_cancel_right}
use open_liberty_operator.Semeru.{
  App, References, StringMap, get, put, fixed_labels, get_generation, get_selectors, get_labels,
  get_semeru_generation_label_name,
}
use open_liberty_operator.Semeru.Ports.{
  PortReference, number, named, ContainerPort, ServicePort, container_ports, probe_port,
  service_ports, upgrade_semeru_health_ports, deployed, health_port_of, port_name, server_port,
}

-- A deployed compiler is replaced exactly when the configured health port is not the one with which
-- it was deployed.
pub upgrade-deployed :
    (old new : Option ℤ)
    → upgrade_semeru_health_ports new (some (deployed old))
      ≡ not (health_port_of new == health_port_of old)
unfolding upgrade_semeru_health_ports deployed str_beq
upgrade-deployed old new =
    let a = health_port_of old in
    let b = health_port_of new in
    elim (Bool-cases (a == server_port)) [
      | inl p ↦ ground (
        arith,
        p,
        int_eq.same_iff a server_port,
        int_eq.same_iff b server_port,
        int_eq.same_iff b a,
        int_eq.same_iff server_port b,
      )
      | inr p ↦ ground (
        arith,
        p,
        int_eq.same_iff a server_port,
        int_eq.same_iff b server_port,
        int_eq.same_iff b a,
        int_eq.same_iff server_port b,
        int_eq.same_iff a b,
      )
    ]

-- The number to which Kubernetes resolves a target port in a container.
abbrev pub resolve : PortReference → List ContainerPort → Option ℤ
resolve (number n) ports = some n
resolve (named s) [] = none
resolve (named s) (p ∷ ports) =
    if p.name == s then some p.container_port else resolve (named s) ports

-- A port as an int32.
abbrev pub IsPort : ℤ → Type 0
IsPort p = (negsuc (2 ^ 31) <ℤ p) × (p <ℤ pos (2 ^ 31))

name-server : (h : ℤ) → IsPort h → h ≢ server_port → port_name server_port ≢ port_name h
unfolding port_name format_int
name-server (pos n) b d = λ e. d (
    ap pos (
      sym (
        format_nat-injective 38400 n (omega arith) (omega arith)
          (append_cancel_right (format_nat 38400) (format_nat n) (codes "-tcp") e))))
name-server (negsuc n) b d = λ e. absurd (unfold format_nat in ground (arith, e))

-- The Service of a new compiler sends each of its ports to the container port of that number, and
-- the probes look at the health port.
pub service_ports-resolve :
    (health : Option ℤ)
    → IsPort (health_port_of health)
    → All
        (λ p. resolve p.target_port (container_ports health) ≡ some p.port)
        (service_ports health [])
      × (resolve (probe_port health) (container_ports health) ≡ some (health_port_of health))
unfolding service_ports container_ports probe_port
service_ports-resolve health b = elim (Bool-cases (health_port_of health == server_port)) [
  | inl e ↦ ground (arith, e, int_eq.same_iff (health_port_of health) server_port)
  | inr e ↦ ground (
    arith,
    e,
    int_eq.same_iff (health_port_of health) server_port,
    name-server (health_port_of health) b,
    str_eq.same_iff (port_name server_port) (port_name (health_port_of health)),
    str_eq.same_iff (port_name server_port) (port_name server_port),
    str_eq.same_iff (port_name (health_port_of health)) (port_name (health_port_of health)),
  )
]

-- Writing the Service again changes nothing.
pub service_ports_again :
    (health : Option ℤ) (ports : List ServicePort)
    → service_ports health (service_ports health ports) ≡ service_ports health ports
unfolding service_ports
service_ports_again health [] = ground arith
service_ports_again health (p ∷ []) = ground arith
service_ports_again health (p ∷ q ∷ ps) = ground arith

pub get-put :
    (k j v : Str) (m : StringMap) → get k (put j v m) ≡ (if j == k then some v else get k m)
unfolding get put
get-put k j v [] = refl
get-put k j v ((i, w) ∷ m) =
    ground (arith, get-put k j v m, str_eq.same_iff i j, str_eq.same_iff i k, str_eq.same_iff j k)

-- The label of the generation is none of the keys without the word.
generation_label-ne :
    (a : App) (k : Str)
    → has_substring (codes "generation") k ≡ false
    → (get_semeru_generation_label_name a == k) ≡ false
unfolding get_semeru_generation_label_name
generation_label-ne a k h =
    let there : has_substring (codes "generation") (get_semeru_generation_label_name a) ≡ true =
      rw (← append_assoc a.group_name (codes "/semeru-compiler-") (codes "generation")) (
        has_substring-append_right (codes "generation")
          (a.group_name ++ codes "/semeru-compiler-")) in
    ground (arith, there, h, str_eq.same_iff (get_semeru_generation_label_name a) k)

under_generation :
    (a : App) (k g : Str) (m : StringMap) {v : Str}
    → has_substring (codes "generation") k ≡ false
    → get k m ≡ some v
    → get k (put (get_semeru_generation_label_name a) g m) ≡ some v
under_generation a k g m h e =
    ground (arith, get-put k (get_semeru_generation_label_name a) g m, generation_label-ne a k h, e)

-- Every entry of the one map stands in the other.
abbrev pub Selects : StringMap → StringMap → Type 0
Selects selectors labels = All (λ e. get e.0 labels ≡ some e.1) selectors

-- The selectors of a compiler's Service and Deployment select its pods, whatever its generation.
pub get_selectors-Selects :
    (a : App) (r : Option References) → Selects (get_selectors a r) (get_labels a r)
unfolding get_selectors get_labels fixed_labels put get str_beq has_substring
get_selectors-Selects a r = (
  under_generation a (codes "app.kubernetes.io/component") (get_generation r) (fixed_labels a r)
      refl refl,
  (
    under_generation a (codes "app.kubernetes.io/instance") (get_generation r) (fixed_labels a r)
        refl refl,
    (
      under_generation a (codes "app.kubernetes.io/part-of") (get_generation r) (fixed_labels a r)
          refl refl,
      tt,
    ),
  ),
)
