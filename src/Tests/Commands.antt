-- ===== src/Tests/Commands.antt =====
-- Heartbeats of a bridge with the cloud's key, and of one whose file of the key is too short.
use latticeshield.Prelude.{
  ℕ, ◌≡◌, ◌↔◌, true, [], ◌∷◌, length-replicate, replicate, none, some, arith,
}
use latticeshield.Prelude.Text.{codes}
use latticeshield.Bridge.ControlPlane.Drift.{pos}
use latticeshield.Bridge.ControlPlane.{
  rotate, unknown, HeartbeatResponse, Reply, AgentConfig, Codecs, Turn, verify_response, start,
}
use latticeshield.Bridge.ControlPlane.Verified.{Trusted, verify_response-Trusted}
use latticeshield.Bridge.ControlPlane.Loop.{Followed, start-Backed}
use latticeshield.Tests.Exchange.{toy_dsa, the_signature}

abbrev signed : HeartbeatResponse
signed = record {
  pending_commands = some (rotate ∷ []);
  signed_payload = some (codes "{}");
  response_signature = some (codes "sig");
}

abbrev codecs : Codecs
codecs = record {
  to_vec = λ p. some (p.timestamp_unix ∷ []);
  response_from_slice = λ bs. some signed;
  payload_from_str =
      λ s. some (record { pending_commands = some (rotate ∷ unknown ∷ []); ts = pos 1000 });
  agent_id_from_slice = λ bs. some bs;
  encode = λ bs. bs;
  decode = λ s. some the_signature;
}

verify_response-Trusted_example :
    ((verify_response toy_dsa codecs [] 1200 signed).pending_commands
      ≡ some (rotate ∷ unknown ∷ []))
    ↔ Trusted toy_dsa codecs [] 1200 signed (rotate ∷ unknown ∷ [])
verify_response-Trusted_example =
    verify_response-Trusted toy_dsa codecs [] 1200 signed (rotate ∷ unknown ∷ []) (omega arith)

abbrev config : AgentConfig
config = record {
  control_plane_endpoint = codes "https://cloud/";
  control_plane_agent_name = codes "edge";
  control_plane_install_token = none;
  listen_addr = codes "127.0.0.1:8443";
  version = codes "1";
}

abbrev reply : Reply
reply = record { is_success = true; content_length = none; body = some (codes "id") }

abbrev turn : Turn toy_dsa codecs
turn = record {
  signable = record {
    timestamp_unix = 1200;
    uptime_secs = 10;
    status = codes "healthy";
    version = codes "1";
    metrics = record {
      connections_active = 0;
      connections_total = 0;
      bytes_transmitted_total = 0;
      channel_errors_total = 0;
    };
  };
  randomness = [];
  now = 1200;
  post = λ url p. some reply;
}

start-Backed_example :
    Followed toy_dsa codecs true config [] []
      (replicate 1952 0)
      (λ url p. some reply)
      (turn ∷ turn ∷ [])
      (start toy_dsa codecs
        (some (some (replicate 1952 0)))
        true
        config
        []
        []
        (λ url p. some reply)
        (turn ∷ turn ∷ []))
start-Backed_example =
    start-Backed toy_dsa codecs true config [] [] (replicate 1952 0) (λ url p. some reply)
      (turn ∷ turn ∷ []) (length-replicate {A = ℕ} 1952 0) (omega arith, (omega arith, tt))
