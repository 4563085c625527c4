-- ===== src/Bridge/Server.antt =====
-- The process of the bridge: `run` of latticeshield-bridge/src/server.rs up to its accept loop, the task that takes the
-- commands of the control plane, and the drain phase. The machine is an argument: its files, what binds and what the metrics
-- crate says.
pub mod Startup
pub mod Drain
use latticeshield.Prelude.{
  ℕ, ◌+◌, ◌%◌, ◌^◌, Bool, true, false, not, ◌&&◌, List, [], ◌∷◌, ◌++◌, leb, max, if◌then◌else◌,
  Option, none, some, Result, ok, err, map_err, ◌>>=?◌,
}
use latticeshield.Prelude.Bytes.{Bytes}
use latticeshield.Prelude.Text.{Text, is_empty}
use latticeshield.Identity.{
  FilePath, FileSystem, Identity, LoadError, IdentityError, load, load_verifying_identity,
}
use latticeshield.Bridge.Acceptor.{TlsError, Rustls, build_server_config}
use latticeshield.Bridge.Config.Validate.{ValidConfig}
use latticeshield.Bridge.ControlPlane.{BridgeCommand, rotate, unknown}

-- What `run` spawns.
pub data Task : Type 0 where
  signal_handler metrics_server quic_listener tls_listener admin_listener ws_listener : Task
  command_consumer control_plane_agent : Task

-- `panicked` is an `expect` of a path that is not there.
pub data RunError : Type 0 where
  no_recorder no_tcp_listener panicked : RunError
  no_identity : LoadError → RunError
  no_client_vk no_control_plane_vk : IdentityError → RunError
  tls_setup : TlsError → RunError

-- Code that spawns tasks, the latest first, and may fail.
abbrev pub Spawning : Type 0 → Type 0
Spawning A = List Task → Result RunError A × List Task

abbrev pub then_with :
    {A B : Type 0}
    → Result RunError A × List Task
    → (A → Spawning B)
    → Result RunError B × List Task
then_with (ok a, tasks) f = f a tasks
then_with (err e, tasks) f = (err e, tasks)

infixl 5 ◌>>=◌ ◌>>◌
abbrev pub ◌>>=◌ : {A B : Type 0} → Spawning A → (A → Spawning B) → Spawning B
◌>>=◌ m f tasks = then_with (m tasks) f

abbrev pub ◌>>◌ : {A B : Type 0} → Spawning A → Spawning B → Spawning B
m >> k = m >>= λ _. k

abbrev pub lift : {A : Type 0} → Result RunError A → Spawning A
lift r tasks = (r, tasks)

abbrev pub add_if : Bool → Task → List Task → List Task
add_if on task tasks = if on then task ∷ tasks else tasks

abbrev pub spawn_if : Bool → Task → Spawning (Unit {0})
spawn_if on task tasks = (ok tt, add_if on task tasks)

abbrev pub guard : Bool → RunError → Result RunError (Unit {0})
guard fine e = if fine then ok tt else err e

-- What the accept loop and the tasks have.
pub record Started : Type 0 where
  pub identity : Identity
  pub client_vk : Option Bytes
  pub cp_vk : Option Bytes

pub record Machine (A : Type 0) (fs : FileSystem) : Type 0 where
  pub installs_recorder : Bool
  pub files : fs.Files
  pub file_path : Text → FilePath
  pub binds : A → Bool

module _ {A : Type 0} (fs : FileSystem) (rustls : Rustls) (machine : Machine A fs) where
  -- A key that is loaded where it is asked for, of a path that is expected there.
  unfoldable pub expected_vk :
      (IdentityError → RunError) → Bool → Option Text → Result RunError (Option Bytes)
  expected_vk error false path = ok none
  expected_vk error true none = err panicked
  expected_vk error true (some path) =
      map_err error (load_verifying_identity fs (machine.file_path path) machine.files) >>=? λ vk.
      ok (some vk)

  unfoldable pub tls_acceptor : ValidConfig A → Result RunError (Unit {0})
  tls_acceptor config =
      if config.tls_enabled
      then (map_err tls_setup (
            build_server_config fs rustls (machine.file_path config.tls_cert_path)
              (machine.file_path config.tls_key_path) machine.files)
          >>=? λ acceptor. ok tt)
      else ok tt

  abbrev pub agent_runs : ValidConfig A → Bool
  agent_runs config = config.control_plane_enabled && not (is_empty config.control_plane_endpoint)

  unfoldable pub run : ValidConfig A → Spawning Started
  run config = do
    lift (guard machine.installs_recorder no_recorder)
    spawn_if true signal_handler
    identity ←
        lift
          (map_err no_identity (load fs (machine.file_path config.signing_key_path) machine.files))
    client_vk ← lift (expected_vk no_client_vk config.client_auth_enabled config.client_vk_path)
    spawn_if true metrics_server
    spawn_if config.quic_enabled quic_listener
    lift (tls_acceptor config)
    spawn_if config.tls_enabled tls_listener
    cp_vk ←
        lift
          (expected_vk no_control_plane_vk config.admin_enabled config.admin_control_plane_vk_path)
    spawn_if config.admin_enabled admin_listener
    spawn_if config.ws_enabled ws_listener
    lift (guard (machine.binds config.listen_addr) no_tcp_listener)
    spawn_if true command_consumer
    spawn_if (agent_runs config) control_plane_agent
    lift (ok (record { identity = identity; client_vk = client_vk; cp_vk = cp_vk }))

-- The value of the watch channel that the sessions wait on, and the counter of the metrics.
pub record Rotations : Type 0 where
  pub requested : ℕ
  pub key_rotations_total : ℕ

unfoldable pub consume : List BridgeCommand → Rotations → Rotations
consume [] r = r
consume (rotate ∷ cmds) r = consume cmds (record {
  requested = (r.requested + 1) % 2 ^ 64;
  key_rotations_total = (r.key_rotations_total + 1) % 2 ^ 64;
})
consume (unknown ∷ cmds) r = consume cmds r

-- The time, and how often a task was given up.
pub record Drained : Type 0 where
  pub now : ℕ
  pub given_up : ℕ

-- When a task ends, where it does without being asked again.
abbrev pub EndsAt : Type 0
EndsAt = Option ℕ

-- `time::timeout` around the handle of a task.
unfoldable pub wait_for : (shutdown_timeout : ℕ) → EndsAt → Drained → Drained
wait_for shutdown_timeout none d = record {
  now = d.now + shutdown_timeout;
  given_up = d.given_up + 1;
}
wait_for shutdown_timeout (some t) d =
    if leb t (d.now + shutdown_timeout)
    then record d { now = max d.now t }
    else record { now = d.now + shutdown_timeout; given_up = d.given_up + 1 }

unfoldable pub wait_for_all : (shutdown_timeout : ℕ) → List EndsAt → Drained → Drained
wait_for_all shutdown_timeout [] d = d
wait_for_all shutdown_timeout (h ∷ handles) d =
    wait_for_all shutdown_timeout handles (wait_for shutdown_timeout h d)

-- The tasks of the listeners, where they were spawned.
pub record Listeners : Type 0 where
  pub tls : Option EndsAt
  pub quic : Option EndsAt
  pub admin : Option EndsAt
  pub ws : Option EndsAt
  pub control_plane : Option EndsAt
  pub metrics : EndsAt

abbrev pub handle_of : Option EndsAt → List EndsAt
handle_of none = []
handle_of (some h) = h ∷ []

abbrev pub waited_for : (sessions : List EndsAt) → Listeners → List EndsAt
waited_for sessions l =
    sessions
    ++ (handle_of l.tls
        ++ (handle_of l.quic
            ++ (handle_of l.admin
                ++ (handle_of l.ws ++ (handle_of l.control_plane ++ (l.metrics ∷ []))))))

-- The sessions one after the other, then the listeners.
unfoldable pub drain :
    (shutdown_timeout : ℕ) (sessions : List EndsAt) → Listeners → (now : ℕ) → Drained
drain shutdown_timeout sessions l now =
    wait_for_all shutdown_timeout (waited_for sessions l) (record { now = now; given_up = 0 })
