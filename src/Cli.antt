-- ===== src/Cli.antt =====
-- `vk-share` of latticeshield-cli/src/main.rs: the client of the bridge's admin channel. The connection, the clock,
-- serde_json and what the generator draws are arguments; what is printed is the result.
pub mod Delivered
pub mod Exchange
pub mod VkShare
use latticeshield.Prelude.{
  ℕ, ◌+◌, ◌*◌, ◌/◌, ◌%◌, ◌^◌, Bool, take, if◌then◌else◌, Option, none, some, Result, ok, err, ok_or,
  map_err, ◌>>=?◌,
}
use latticeshield.Prelude.Bytes.{Bytes}
use latticeshield.Prelude.Text.{Text, codes}
use latticeshield.Crypto.Primitives.{Aead, Hkdf}
use latticeshield.Crypto.Signing.{MlDsa}
use latticeshield.Crypto.Stream.{Stream, read_exact, write_all}
use latticeshield.Crypto.Handshake.{
  X25519, MlKem, HandshakeError, parse_server_hello_signed, client_respond,
  serialize_client_response_signed, server_hello_len, server_hello_signed_len,
}
use latticeshield.Crypto.Channel.State
use latticeshield.Crypto.Channel.State.{FrameError, FrameResult, plain, key_rotate}
use latticeshield.Crypto.Channel.Link.{Link}
use latticeshield.Crypto.Channel.Ops.{read_frame, write_frame}
use latticeshield.Identity.{
  FilePath, FileSystem, Identity, IdentityError, LoadError, load, load_verifying_identity,
}

pub record CommandFrame : Type 0 where
  pub seq : ℕ
  pub cmd : Text

pub data AdminResponse : Type 0 where
  vk_token : (token url : Text) → AdminResponse
  error : Text → AdminResponse
  unknown : AdminResponse

-- serde_json on the two types.
pub record CliCodecs : Type 0 where
  pub frame_to_vec : CommandFrame → Option Bytes
  pub response_from_slice : Bytes → Option AdminResponse

-- What `run_admin_command` and `cmd_vk_share` fail with.
pub data CliError : Type 0 where
  loading_bridge_vk : IdentityError → CliError
  loading_admin_sk : LoadError → CliError
  timed_out connecting set_nodelay reading_hello bridge_authentication : CliError
  responding signing : HandshakeError → CliError
  writing_response encoding_command : CliError
  writing_command reading_response : FrameError → CliError
  unexpected_key_rotate parsing_response : CliError
  admin_error : Text → CliError
  unexpected_response : CliError

pub record CliDraws : Type 0 where
  pub x25519_secret : Bytes
  pub kem_randomness : Bytes
  pub sign_randomness : Bytes

-- The clock's microseconds as `u64`.
abbrev pub sequence_of : (micros : ℕ) → ℕ
sequence_of micros = micros % 2 ^ 64

module _ {Dk Ek : Type 0} (dsa : MlDsa) (x : X25519) (kem : MlKem Dk Ek) (hkdf : Hkdf) (aead : Aead)
    (codecs : CliCodecs) where
  -- The part before the channel: the response is signed, and the session key is returned.
  unfoldable pub handshake :
      CliDraws → (bridge_vk admin_sk : Bytes) → Stream → Result CliError (Bytes × Stream)
  handshake draws bridge_vk admin_sk s =
      ok_or (read_exact server_hello_signed_len s) reading_hello >>=? λ r.
      map_err (λ _. bridge_authentication) (parse_server_hello_signed dsa x kem hkdf r.0 bridge_vk)
      >>=? λ hello.
          map_err responding
            (client_respond dsa x kem hkdf hello draws.x25519_secret draws.kem_randomness)
          >>=? λ k.
              map_err signing (
                serialize_client_response_signed dsa x kem hkdf k.0 admin_sk
                  (take server_hello_len r.0) draws.sign_randomness)
              >>=? λ signed. ok_or (write_all signed r.1) writing_response >>=? λ s1. ok (k.1, s1)

  unfoldable pub open_channel : Bytes × Stream → Link
  open_channel (session_key, s) = record {
    channel = State.new session_key (64 * 1024);
    input = s.input;
    output = s.output;
  }

  unfoldable pub sent_command : Result FrameError (Unit {0}) × Link → Result CliError Link
  sent_command (ok _, l) = ok l
  sent_command (err e, l) = err (writing_command e)

  unfoldable pub send_command : (micros : ℕ) → Link → Result CliError Link
  send_command micros l =
      ok_or (codecs.frame_to_vec (record { seq = sequence_of micros; cmd = codes "GetVkToken" }))
        encoding_command
      >>=? λ cmd. sent_command (write_frame aead cmd l)

  unfoldable pub printed : AdminResponse → Result CliError (Text × Text)
  printed (vk_token token url) = ok (token, url)
  printed (error message) = err (admin_error message)
  printed unknown = err unexpected_response

  unfoldable pub read_response :
      Result FrameError FrameResult × Link → Result CliError (Text × Text)
  read_response (ok (plain bytes), l) =
      ok_or (codecs.response_from_slice bytes) parsing_response >>=? printed
  read_response (ok (key_rotate nonce), l) = err unexpected_key_rotate
  read_response (err e, l) = err (reading_response e)

  -- `run_admin_command` up to its request, which has been written.
  unfoldable pub request :
      CliDraws → (bridge_vk admin_sk : Bytes) (micros : ℕ) → Stream → Result CliError Link
  request draws bridge_vk admin_sk micros s =
      handshake draws bridge_vk admin_sk s >>=? λ r. send_command micros (open_channel r)

  unfoldable pub run_admin_command :
      CliDraws
      → (bridge_vk admin_sk : Bytes) (micros : ℕ) (nodelay : Bool) → Option Stream
      → Result CliError (Text × Text)
  run_admin_command draws bridge_vk admin_sk micros nodelay stream =
      ok_or stream connecting >>=? λ s.
      if nodelay
      then (request draws bridge_vk admin_sk micros s >>=? λ l. read_response (read_frame aead l))
      else err set_nodelay

  unfoldable pub cmd_vk_share :
      (fs : FileSystem)
      → fs.Files
      → (bridge_vk_path admin_sk_path : FilePath) (elapsed : Bool) → CliDraws
      → (micros : ℕ) (nodelay : Bool) → Option Stream
      → Result CliError (Text × Text)
  cmd_vk_share fs files bridge_vk_path admin_sk_path elapsed draws micros nodelay stream =
      map_err loading_bridge_vk (load_verifying_identity fs bridge_vk_path files) >>=? λ bridge_vk.
      map_err loading_admin_sk (load fs admin_sk_path files) >>=? λ admin_identity.
      if elapsed
      then err timed_out
      else run_admin_command draws bridge_vk admin_identity.signing_key micros nodelay stream
