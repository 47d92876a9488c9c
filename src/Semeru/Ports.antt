-- ===== src/Semeru/Ports.antt =====
-- The ports of the compiler's Service and Deployment, and the check whether a deployed compiler
-- still has the configured ones. A port is an int32, as an integer; the protocol is always TCP.
use open_liberty_operator.Common.{
  Str, codes, ◌==◌, str_eq, int_eq, nat_eq, Bool, true, false, not, ◌&&◌, ◌||◌, List, [], ◌∷◌, ◌++◌,
  Option, none, some, ℤ, pos, format_int, if◌then◌else◌, length, ltb,
}

-- `intstr.IntOrString`.
pub data PortReference : Type 0 where
  number : ℤ → PortReference
  named : Str → PortReference

pub record ContainerPort : Type 0 where
  pub name : Str
  pub container_port : ℤ

pub record ServicePort : Type 0 where
  pub name : Str
  pub port : ℤ
  pub target_port : PortReference

pub record Container : Type 0 where
  pub name : Str
  pub ports : List ContainerPort

abbrev pub server_port : ℤ
server_port = pos 38400

-- The configured health port, 38600 by default.
unfoldable pub health_port_of : Option ℤ → ℤ
health_port_of none = pos 38600
health_port_of (some p) = p

unfoldable pub port_name : ℤ → Str
port_name p = format_int p ++ codes "-tcp"

-- The container ports that `reconcileSemeruDeployment` writes.
unfoldable pub container_ports : Option ℤ → List ContainerPort
unfolding health_port_of port_name
container_ports health =
    let h = health_port_of health in
    if not (h == server_port)
    then record { name = port_name server_port; container_port = server_port }
      ∷ record { name = port_name h; container_port = h }
      ∷ []
    else record { name = []; container_port = server_port } ∷ []

-- The port of its liveness and readiness probes.
unfoldable pub probe_port : Option ℤ → PortReference
unfolding health_port_of port_name
probe_port health =
    let h = health_port_of health in
    if h == server_port then number server_port else named (port_name h)

-- The flag for health probes that it adds to the options of the compiler.
unfoldable pub health_probes_flag : Option ℤ → Str
unfolding health_port_of
health_probes_flag health =
    let h = health_port_of health in
    if not (h == server_port)
    then codes " -XX:+JITServerHealthProbes"
      ++ (codes " -XX:JITServerHealthProbePort=" ++ format_int h)
    else []

abbrev pub blank_port : ServicePort
blank_port = record { name = []; port = pos 0; target_port = number (pos 0) }

abbrev with_health : ℤ → ServicePort → List ServicePort → List ServicePort
with_health h first rest =
    record {
      name = port_name server_port;
      port = first.port;
      target_port = named (port_name server_port);
    }
    ∷ (record { name = port_name h; port = h; target_port = named (port_name h) }
        ∷ elim rest [ [] ↦ [] | second ∷ others ↦ others ])

abbrev first_port : List ServicePort → ServicePort
first_port [] = record { name = []; port = server_port; target_port = number server_port }
first_port (p ∷ ps) = record { name = p.name; port = server_port; target_port = number server_port }

abbrev other_ports : List ServicePort → List ServicePort
other_ports [] = []
other_ports (p ∷ ps) = ps

-- The ports of the Service after `reconcileSemeruService`, from those it had.
unfoldable pub service_ports : Option ℤ → List ServicePort → List ServicePort
unfolding health_port_of port_name
service_ports health ports =
    let h = health_port_of health in
    if not (h == server_port)
    then with_health h (first_port ports) (other_ports ports)
    else first_port ports ∷ other_ports ports

-- `getSemeruDeploymentContainer`.
unfoldable pub get_semeru_deployment_container : List Container → Option Container
get_semeru_deployment_container [] = none
get_semeru_deployment_container (c ∷ cs) =
    if c.name == codes "compiler" then some c else get_semeru_deployment_container cs

contains_port : ℤ → List ContainerPort → Bool
contains_port h [] = false
contains_port h (p ∷ ps) = p.container_port == h || contains_port h ps

-- `upgradeSemeruHealthPorts`, given the containers of the Deployment if there is one.
unfoldable pub upgrade_semeru_health_ports : Option ℤ → Option (List Container) → Bool
unfolding health_port_of get_semeru_deployment_container contains_port
upgrade_semeru_health_ports health none = false
upgrade_semeru_health_ports health (some cs) =
    let h = health_port_of health in
    elim (get_semeru_deployment_container cs) [
      | none ↦ false
      | some c ↦
          if h == server_port && ltb 1 (length c.ports) then true else not (contains_port h c.ports)
    ]

-- The containers of the Deployment that `reconcileSemeruDeployment` writes.
unfoldable pub deployed : Option ℤ → List Container
unfolding container_ports
deployed health = record { name = codes "compiler"; ports = container_ports health } ∷ []
