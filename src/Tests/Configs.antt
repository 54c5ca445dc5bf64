-- ===== src/Tests/Configs.antt =====
-- Configurations of the host and of the attaching side.
use locho.Base.{
  false, List, [], ◌∷◌, none, some, Bytes, codes, ◌≡◌, ◌↔◌, refl, ok, Distinct, nat_eq, bytes_eq,
}
use locho.Service.{http, tcp, is_safe_service_name, is_service_byte}
use locho.Capability.{parse, parse_parts}
use locho.Net.{v4}
use locho.Config.{ServiceConfig, Env, validate, resolve_tcp_idle_timeout}
use locho.Config.Valid.{ConfigIsValid, validate_iff}
use locho.AttachConfig.{
  AttachServiceConfig, AttachConfig, AttachmentConfig, tcp_at, attachments, attachments_from,
  attachment, resolve, resolve_http, resolve_tcp, resolve_http_timeout,
}
use locho.AttachConfig.Listeners.{service_names, tcp_ports, socket_paths, attachments_apart}

-- URLs are their own scheme, with a host; no file can be read.
abbrev env : Env Bytes
env = record {
  scheme = λ url. url;
  host_str = λ url. some (codes "example.org");
  read_file = λ path. none;
  is_pem = λ pem. false;
  integration_test = false;
  max_path_bytes = 107;
}

abbrev web : ServiceConfig Bytes
web = record {
  name = codes "web";
  service_type = http;
  upstream = some (codes "https");
  upstream_timeout_secs = some 30;
  ca_cert = none;
  endpoint = none;
  unix_socket = none;
  tcp_idle_timeout_secs = none;
}

validate_iff_example : (validate env (web ∷ []) ≡ ok tt) ↔ ConfigIsValid env (web ∷ [])
validate_iff_example = validate_iff env (web ∷ [])

abbrev attach_web : AttachServiceConfig
attach_web = record {
  capability = codes "web:http:w1";
  listen_port = some 8080;
  listen_unix = none;
  http_timeout_secs = none;
  tcp_idle_timeout_secs = none;
}

abbrev attach_ssh : AttachServiceConfig
attach_ssh = record {
  capability = codes "ssh:tcp:s3";
  listen_port = some 2222;
  listen_unix = none;
  http_timeout_secs = none;
  tcp_idle_timeout_secs = none;
}

abbrev attach : AttachConfig
attach = record {
  host_id = codes "abc";
  direct_address = none;
  listen_host = v4 (codes "127.0.0.1");
  services = attach_web ∷ attach_ssh ∷ [];
}

abbrev listed : List AttachmentConfig
listed =
    record {
      capability = record { service = codes "web"; service_type = http; secret = codes "w1" };
      listen = tcp_at (record { ip = v4 (codes "127.0.0.1"); port = 8080 });
      http_timeout = 60;
      tcp_idle_timeout = none;
    }
    ∷ record {
      capability = record { service = codes "ssh"; service_type = tcp; secret = codes "s3" };
      listen = tcp_at (record { ip = v4 (codes "127.0.0.1"); port = 2222 });
      http_timeout = 60;
      tcp_idle_timeout = some 300;
    }
    ∷ []

attached : attachments 107 attach ≡ ok listed
unfolding attachments attachments_from attachment resolve resolve_http resolve_tcp
    resolve_tcp_idle_timeout resolve_http_timeout parse parse_parts is_safe_service_name
    is_service_byte
attached = refl

attachments_apart_example :
    Distinct (service_names listed) × Distinct (tcp_ports listed) × Distinct (socket_paths listed)
attachments_apart_example = attachments_apart 107 attach attached
