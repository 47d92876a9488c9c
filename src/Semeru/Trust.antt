-- ===== src/Semeru/Trust.antt =====
-- The certificate that the options name is there in the pod.
use open_liberty_operator.Common.{
  codes, str_eq, true, [], some, ok, ◌≡◌, ◌≢◌, arith, is_some, if◌then◌else◌,
}
use open_liberty_operator.Semeru.{CompilerStatus}
use open_liberty_operator.Semeru.Client.{
  get_semeru_cert_volume, get_semeru_java_options, mounted_certificate,
}

-- With the compiler enabled and a TLS Secret recorded, the JIT options name the recorded host, and the
-- certificate of the mounted Secret if it is mounted, or else that of the service account.
pub get_semeru_java_options-certificate :
    (c : CompilerStatus)
    → c.tls_secret_name ≢ []
    → get_semeru_java_options true (some c)
      ≡ ok (
          some (record {
            address = c.service_hostname;
            certificate =
                if is_some (get_semeru_cert_volume (some c))
                then mounted_certificate
                else codes "/var/run/secrets/kubernetes.io/serviceaccount/service-ca.crt";
          }))
unfolding get_semeru_java_options get_semeru_cert_volume
get_semeru_java_options-certificate c h = ground (arith, h, str_eq.same_iff c.tls_secret_name [])
