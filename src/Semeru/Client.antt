-- ===== src/Semeru/Client.antt =====
-- What the application's pods get to reach their compiler, and when the compiler is ready.
use open_liberty_operator.Common.{
  Str, codes, ◌==◌, str_eq, int_eq, nat_eq, Bool, true, false, ◌&&◌, ◌||◌, [], ◌++◌, Option, none,
  some, ℤ, ltb_ℤ, Result, ok, err, if◌then◌else◌, drop, length, ltb, ◌-◌,
}
use open_liberty_operator.Semeru.{CompilerStatus}

-- `strings.HasSuffix`.
unfoldable pub has_suffix : Str → Str → Bool
has_suffix t s = if ltb (length s) (length t) then false else drop (length s - length t) s == t

-- `getSemeruCertVolume`: the Secret that the volume mounts.
unfoldable pub get_semeru_cert_volume : Option CompilerStatus → Option Str
unfolding has_suffix
get_semeru_cert_volume none = none
get_semeru_cert_volume (some c) =
    if c.tls_secret_name == [] || has_suffix (codes "-ocp") c.tls_secret_name
    then none
    else some c.tls_secret_name

-- `getSemeruCertVolumeMount`: the path.
abbrev pub mount_path : Str
mount_path = codes "/etc/x509/semeru-certs"

abbrev pub mounted_certificate : Str
mounted_certificate = codes "/etc/x509/semeru-certs/ca.crt"

-- What the JIT options name: the compiler's address and the certificate that it is checked by.
pub record JitOptions : Type 0 where
  pub address : Str
  pub certificate : Str

pub data Panic : Type 0 where
  nil_status : Panic

-- `getSemeruJavaOptions` up to the formatting of the command; the status is read without a check.
unfoldable pub get_semeru_java_options :
    Bool → Option CompilerStatus → Result Panic (Option JitOptions)
unfolding has_suffix
get_semeru_java_options false s = ok none
get_semeru_java_options true none = err nil_status
get_semeru_java_options true (some c) = ok (
    some (record {
      address = c.service_hostname;
      certificate =
          if has_suffix (codes "-ocp") c.tls_secret_name
          then codes "/var/run/secrets/kubernetes.io/serviceaccount/service-ca.crt"
          else mounted_certificate;
    }))

-- The formatting of the options.
unfoldable pub jit_server_options : JitOptions → Str
jit_server_options o =
    codes "-XX:+UseJITServer -XX:+JITServerLogConnections -XX:JITServerAddress="
    ++ (o.address ++ (codes " -XX:JITServerSSLRootCerts=" ++ o.certificate))

pub record Replicas : Type 0 where
  pub replicas : ℤ
  pub ready_replicas : ℤ
  pub updated_replicas : ℤ

pub data NotReady : Type 0 where
  not_created progressing deployment_not_ready : NotReady

-- `areSemeruCompilerResourcesReady`, given the status of the Deployment if there is one.
unfoldable pub are_semeru_compiler_resources_ready : ℤ → Option Replicas → Option NotReady
are_semeru_compiler_resources_ready expected none = some not_created
are_semeru_compiler_resources_ready expected (some s) =
    if s.replicas == expected && s.ready_replicas == expected && s.updated_replicas == expected
    then none
    else if ltb_ℤ expected s.replicas
    then some progressing
    else some deployment_not_ready
