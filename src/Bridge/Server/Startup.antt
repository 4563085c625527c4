-- ===== src/Bridge/Server/Startup.antt =====
-- The start of the process of latticeshield-bridge/src/server.rs on a configuration that has been accepted.
use latticeshield.Prelude.{
  ◌≡◌, ◌≢◌, ◌⊎◌, inl, inr, refl, sym, ◌∙◌, ap, Bool, true, false, Bool-cases, not, ◌&&◌, List, [],
  ◌∷◌, Option, none, some, Result, ok, err, map_err, map_err-ok, Result-cases, ok_injective, ◌>>=?◌,
}
use latticeshield.Prelude.Bytes.{Bytes}
use latticeshield.Prelude.Text.{Text, is_empty}
use latticeshield.Prelude.Dict.{Key}
use latticeshield.Identity.{FileSystem, IdentityError, load, load_verifying_identity}
use latticeshield.Bridge.Acceptor.{TlsError, Rustls, build_server_config}
use latticeshield.Bridge.Ws.Origin.{Url, is_some}
use latticeshield.Bridge.Config.Sections.{Config}
use latticeshield.Bridge.Config.Validate.{Env, ValidConfig, validate}
use latticeshield.Bridge.Config.Paths.{Backed, Equipped, validate-Equipped}
use latticeshield.Bridge.Server.{
  Task, signal_handler, metrics_server, quic_listener, tls_listener, admin_listener, ws_listener,
  command_consumer, control_plane_agent, RunError, no_recorder, no_tcp_listener, panicked,
  no_identity, no_client_vk, no_control_plane_vk, tls_setup, Spawning, then_with, guard, add_if,
  Started, Machine, expected_vk, tls_acceptor, run,
}

-- It fails, and not by a panic, or it has a result of which `Q` holds.
abbrev pub Settles :
    {A : Type 0} → (A → List Task → Type 0) → Result RunError A × List Task → Type 0
Settles {A = A} Q (r, tasks) =
    ((e : RunError) × (r ≡ err e) × (e ≢ panicked)) ⊎ ((a : A) × (r ≡ ok a) × Q a tasks)

lift-Settles :
    {A B : Type 0} (Q : B → List Task → Type 0) (r : Result RunError A) (f : A → Spawning B)
    (tasks : List Task)
    → r ≢ err panicked
    → ((a : A) → r ≡ ok a → Settles Q (f a tasks))
    → Settles Q (then_with (r, tasks) f)
lift-Settles Q (ok a) f tasks fine k = k a refl
lift-Settles Q (err e) f tasks fine k = inl (e, refl, λ h. fine (ap err h))

guard-fine : (b : Bool) (e : RunError) → e ≢ panicked → guard b e ≢ err panicked
guard-fine true e ne h = cc
guard-fine false e ne h = ne cc

map_err-fine :
    {E A : Type 0} (f : E → RunError) (r : Result E A)
    → ((e : E) → f e ≢ panicked)
    → map_err f r ≢ err panicked
map_err-fine f (ok a) ne h = cc
map_err-fine f (err e) ne h = ne e cc

guarded : (b : Bool) (e : RunError) → guard b e ≡ ok tt → b ≡ true
guarded true e h = refl
guarded false e h = cc

module _ {A : Type 0} (fs : FileSystem) (rustls : Rustls) (machine : Machine A fs) where
  expected_vk-fine :
      (error : IdentityError → RunError) (on : Bool) (path : Option Text)
      → ((e : IdentityError) → error e ≢ panicked)
      → Backed on path
      → expected_vk fs rustls machine error on path ≢ err panicked
  unfolding expected_vk
  expected_vk-fine error false path ne b h = cc
  expected_vk-fine error true none ne (inl off) h = cc
  expected_vk-fine error true none ne (inr (p, e)) h = cc
  expected_vk-fine error true (some path) ne b h =
      loaded (load_verifying_identity fs (machine.file_path path) machine.files) h
    where
      loaded :
          (r : Result IdentityError Bytes)
          → (map_err error r >>=? λ vk. ok (some vk)) ≢ err panicked
      loaded (ok vk) q = cc
      loaded (err e) q = ne e cc

  expected_vk-some :
      (error : IdentityError → RunError) (on : Bool) (path : Option Text) (vk : Option Bytes)
      → expected_vk fs rustls machine error on path ≡ ok vk
      → is_some vk ≡ on
  unfolding expected_vk
  expected_vk-some error false path vk h = ap is_some (sym (ok_injective h))
  expected_vk-some error true none vk h = cc
  expected_vk-some error true (some path) vk h =
      loaded (load_verifying_identity fs (machine.file_path path) machine.files) h
    where
      loaded :
          (r : Result IdentityError Bytes)
          → (map_err error r >>=? λ key. ok (some key)) ≡ ok vk
          → is_some vk ≡ true
      loaded (ok key) q = ap is_some (sym (ok_injective q))
      loaded (err e) q = cc

  abbrev pub acceptor_of : ValidConfig A → Result TlsError rustls.ServerConfig
  acceptor_of v =
      build_server_config fs rustls (machine.file_path v.tls_cert_path)
        (machine.file_path v.tls_key_path) machine.files

  tls_acceptor-off :
      (v : ValidConfig A) → v.tls_enabled ≡ false → tls_acceptor fs rustls machine v ≡ ok tt
  unfolding tls_acceptor
  tls_acceptor-off v off = rw off refl

  tls_acceptor-on :
      (v : ValidConfig A)
      → v.tls_enabled ≡ true
      → tls_acceptor fs rustls machine v
        ≡ (map_err tls_setup (acceptor_of v) >>=? λ acceptor. ok tt)
  unfolding tls_acceptor
  tls_acceptor-on v on = rw on refl

  tls_acceptor-fine : (v : ValidConfig A) → tls_acceptor fs rustls machine v ≢ err panicked
  tls_acceptor-fine v h = elim (Bool-cases v.tls_enabled) [
    | inl on ↦ elim (Result-cases (acceptor_of v)) [
      | inl (acceptor, a) ↦ cc (rw a at (sym h ∙ tls_acceptor-on v on))
      | inr (e, a) ↦ cc (rw a at (sym h ∙ tls_acceptor-on v on))
    ]
    | inr off ↦ cc (tls_acceptor-off v off)
  ]

  tls_acceptor-ok :
      (v : ValidConfig A)
      → tls_acceptor fs rustls machine v ≡ ok tt
      → (v.tls_enabled ≡ false) ⊎ ((acceptor : rustls.ServerConfig) × (acceptor_of v ≡ ok acceptor))
  tls_acceptor-ok v h = elim (Bool-cases v.tls_enabled) [
    | inl on ↦ elim (Result-cases (acceptor_of v)) [
      | inl built ↦ inr built
      | inr (e, a) ↦ cc (rw a at (sym h ∙ tls_acceptor-on v on))
    ]
    | inr off ↦ inl off
  ]

  -- The listeners and tasks that a configuration asks for, the latest first.
  abbrev pub asked_for : ValidConfig A → List Task
  asked_for v =
      add_if (v.control_plane_enabled && not (is_empty v.control_plane_endpoint))
        control_plane_agent
        (command_consumer
          ∷ add_if v.ws_enabled ws_listener (
              add_if v.admin_enabled admin_listener (
                add_if v.tls_enabled tls_listener
                  (add_if v.quic_enabled quic_listener (metrics_server ∷ signal_handler ∷ [])))))

  -- The bridge runs as the file of its configuration asks.
  pub record Launched (c : Config) (v : ValidConfig A) (started : Started) (tasks : List Task)
      : Type 0 where
    pub bound : machine.binds v.listen_addr ≡ true
    pub identity_loaded :
        load fs (machine.file_path v.signing_key_path) machine.files ≡ ok started.identity
    pub tls_set_up :
        (v.tls_enabled ≡ false) ⊎ ((acceptor : rustls.ServerConfig) × (acceptor_of v ≡ ok acceptor))
    pub authenticates : is_some started.client_vk ≡ c.auth.require_client_auth
    pub administrated : is_some started.cp_vk ≡ v.admin_enabled
    pub running : tasks ≡ asked_for v

  Equipped-Settles :
      (c : Config) (v : ValidConfig A)
      → Equipped c v
      → Settles (Launched c v) (run fs rustls machine v [])
  unfolding run
  Equipped-Settles c v e =
      let Q : Started → List Task → Type 0 = Launched c v in
      lift-Settles Q _ _ _ (guard-fine machine.installs_recorder no_recorder (λ h. cc)) λ _ _.
        lift-Settles Q _ _ _ (map_err-fine no_identity _ (λ _ h. cc)) λ identity known.
          lift-Settles Q _ _ _ (expected_vk-fine no_client_vk _ _ (λ _ h. cc) e.client_vk)
            λ client_vk auth. lift-Settles Q _ _ _ (tls_acceptor-fine v) λ _ set_up.
              lift-Settles Q _ _ _ (expected_vk-fine no_control_plane_vk _ _ (λ _ h. cc) e.admin_vk)
                λ cp_vk admin.
                  lift-Settles Q _ _ _ (guard-fine _ no_tcp_listener (λ h. cc)) λ _ binds. inr (
                    _,
                    refl,
                    record {
                      bound = guarded _ _ binds;
                      identity_loaded = map_err-ok no_identity _ _ known;
                      tls_set_up = tls_acceptor-ok v set_up;
                      authenticates = expected_vk-some no_client_vk _ _ _ auth ∙ e.as_required;
                      administrated = expected_vk-some no_control_plane_vk _ _ _ admin;
                      running = refl;
                    },
                  )

module _ {A : Type 0} ⦃key : Key A⦄ (parse_addr : Text → Option A) (parse_url : Text → Option Url)
    (fs : FileSystem) (rustls : Rustls) (machine : Machine A fs) where
  -- On a configuration that `validate` accepts the start either fails with an error, and not with a panic, or has bound the
  -- address of the TCP listener, loaded the identity from the path of the configuration and, where TLS is on, built its acceptor
  -- from the two files of the configuration, has the key of the client exactly
  -- where the file requires client authentication and the key of the control plane exactly where the admin listener is on, and
  -- has spawned the tasks of the listeners that are on, of the agent where it is on and has an endpoint, and no other.
  pub run-Launched :
      (env : Env) (c : Config) (v : ValidConfig A)
      → validate parse_addr parse_url env c ≡ ok v
      → Settles (Launched fs rustls machine c v) (run fs rustls machine v [])
  run-Launched env c v h =
      Equipped-Settles fs rustls machine c v (validate-Equipped parse_addr parse_url env c v h)
