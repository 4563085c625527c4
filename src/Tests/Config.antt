-- ===== src/Tests/Config.antt =====
-- The theorems on the configuration at a file that switches every listener on.
use latticeshield.Prelude.{
  ℕ, zero, suc, ◌≡◌, refl, true, List, [], ◌∷◌, if◌then◌else◌, Option, none, some, ok,
}
use latticeshield.Prelude.Bytes.{Bytes}
use latticeshield.Prelude.Text.{Text, codes, text_eq, text_key}
use latticeshield.Bridge.Ws.Origin.{Url}
use latticeshield.Bridge.Config.Sections.{
  Config, default_config, default_tls_config, default_quic_config, default_admin_config,
  default_ws_config, default_auth_config,
}
use latticeshield.Bridge.Config.Checks.{check_all}
use latticeshield.Bridge.Config.Validate.{
  Env, ValidConfig, assemble, validate, fixed_addrs, listener, ports, parse_origins,
}
use latticeshield.Bridge.Config.Bounds.{InRange, validate-InRange}
use latticeshield.Bridge.Config.Separate.{Separated, validate-Separated}
use latticeshield.Identity.{FileSystem}
use latticeshield.Bridge.Acceptor.{Rustls}
use latticeshield.Bridge.Server.{Machine, run}
use latticeshield.Bridge.Server.Startup.{Settles, Launched, run-Launched}

-- Every text is an address, and none a URL.
abbrev parse_addr : Text → Option Text
parse_addr s = some s

abbrev parse_url : Text → Option Url
parse_url s = none

abbrev env : Env
env = record {
  hostname = none;
  install_token = none;
  lattice_vk_token_max = some (codes "5");
  shutdown_timeout_secs = none;
}

abbrev path : Option Text
path = some (codes "k")

abbrev full_config : Config
full_config = record default_config {
  tls = record default_tls_config { enabled = true };
  quic = record default_quic_config { enabled = true; cert_path = path; key_path = path };
  admin = record default_admin_config { enabled = true; control_plane_vk_path = path };
  websocket = record default_ws_config { enabled = true; cert_path = path; key_path = path };
  auth = record default_auth_config { client_vk_path = path };
}

abbrev full_valid : ValidConfig Text
full_valid =
    assemble parse_addr parse_url env full_config
      (record {
        listen = codes "0.0.0.0:8443";
        backend_to = codes "127.0.0.1:8080";
        metrics_at = codes "0.0.0.0:8444";
      })
      (record {
        tls_at = codes "0.0.0.0:8440";
        quic_at = codes "0.0.0.0:8441";
        admin_at = codes "127.0.0.1:8445";
        ws_at = codes "0.0.0.0:8446";
      })
      []

accepted : validate parse_addr parse_url env full_config ≡ ok full_valid
unfolding validate fixed_addrs ports listener check_all parse_origins text_eq
accepted = refl

validate-InRange_example : InRange full_valid
validate-InRange_example = validate-InRange parse_addr parse_url env full_config full_valid accepted

validate-Separated_example : Separated full_valid
validate-Separated_example =
    validate-Separated parse_addr parse_url env full_config full_valid accepted

-- Files of zeros, of the length of a public key where they are called `k` and of a secret key otherwise.
abbrev zeros : ℕ → Bytes
zeros zero = []
zeros (suc n) = 0 ∷ zeros n

abbrev files : FileSystem
files = record {
  Files = Unit {0};
  metadata = λ p s. some 384;
  contents = λ p s. some (zeros (if text_eq p.stem (codes "k") then 1952 else 4032));
  create_dir_all = λ dir s. (true, s);
  create = λ p mode s. (true, s);
  write_all = λ p bytes s. (true, s);
}

abbrev rustls : Rustls
rustls = record {
  ServerConfig = List Bytes;
  certs = λ f. some (f ∷ []);
  private_key = λ f. some (some f);
  with_single_cert = λ certs key. some certs;
}

abbrev machine : Machine Text files
machine = record {
  installs_recorder = true;
  files = tt;
  file_path = λ t. record { folder = []; stem = t; extension = codes "sk" };
  binds = λ a. true;
}

run-Launched_example :
    Settles
      (Launched files rustls machine full_config full_valid)
      (run files rustls machine full_valid [])
run-Launched_example =
    run-Launched parse_addr parse_url files rustls machine env full_config full_valid accepted
