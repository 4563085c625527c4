-- ===== src/Bridge/Config/Accepted.antt =====
-- What holds of a configuration that `validate` of latticeshield-bridge/src/config.rs accepts.
use latticeshield.Prelude.{
  ◌≡◌, refl, sym, subst, Bool, true, false, List, [], ◌∷◌, All, Option, ok, bind-ok, ok_injective,
}
use latticeshield.Prelude.Text.{Text}
use latticeshield.Prelude.Dict.{Key}
use latticeshield.Bridge.Ws.Origin.{Url, NormalizedOrigin, is_some}
use latticeshield.Bridge.Config.Sections.{Config}
use latticeshield.Bridge.Config.Checks.{
  Check, check_all, check_if, Fixed, Ports, Listener, server_checks, control_plane_checks,
  key_rotation_checks, auth_checks, tls_listener, quic_listener, admin_listener, ws_listener,
  tls_checks, quic_checks, admin_checks, ws_checks,
}
use latticeshield.Bridge.Config.Validate.{
  Env, ValidConfig, assemble, parse_origins, validate, addr_of, fixed_addrs, listener, ports,
}

-- None of the conditions holds.
abbrev pub Passed : List Check → Type 0
Passed = All λ c. c.0 ≡ false

pub check_all-Passed : (cs : List Check) (u : Unit {0}) → check_all cs ≡ ok u → Passed cs
unfolding check_all
check_all-Passed [] u h = tt
check_all-Passed ((true, e) ∷ cs) u h = cc
check_all-Passed ((false, e) ∷ cs) u h = (refl, check_all-Passed cs u h)

check_if-Passed :
    (b : Bool) (cs : List Check) (u : Unit {0}) → check_if b cs ≡ ok u → b ≡ true → Passed cs
check_if-Passed true cs u h k = check_all-Passed cs u h
check_if-Passed false cs u h k = cc

module _ {A : Type 0} ⦃key : Key A⦄ (parse_addr : Text → Option A)
    (parse_url : Text → Option Url) where
  listener-Passed :
      (l : Listener) (s : Text) (enabled : Bool) (checks : A → List Check) (a : A)
      → listener parse_addr parse_url l s enabled checks ≡ ok a
      → enabled ≡ true
      → Passed (checks a)
  unfolding listener
  listener-Passed l s enabled checks a h k =
      let (b, _, h1) = bind-ok (addr_of parse_addr parse_url l s) h in
      let (u, passed, h2) = bind-ok (check_if enabled (checks b)) h1 in
      subst (λ x. Passed (checks x)) (ok_injective h2)
        (check_if-Passed enabled (checks b) u passed k)

  -- What the listeners have passed.
  pub record Open (c : Config) (listen metrics : A) (p : Ports A) : Type 0 where
    pub tls_passed : c.tls.enabled ≡ true → Passed (tls_checks c listen metrics p.tls_at)
    pub quic_passed :
        c.quic.enabled ≡ true → Passed (quic_checks c listen metrics p.tls_at p.quic_at)
    pub auth_passed : Passed (auth_checks c)
    pub admin_passed :
        c.admin.enabled ≡ true
        → Passed (admin_checks c listen metrics p.tls_at p.quic_at p.admin_at)
    pub ws_passed :
        c.websocket.enabled ≡ true
        → Passed (ws_checks c listen metrics p.tls_at p.quic_at p.admin_at p.ws_at)

  ports-Open :
      (c : Config) (listen metrics : A) (p : Ports A)
      → ports parse_addr parse_url c listen metrics ≡ ok p
      → Open c listen metrics p
  unfolding ports
  ports-Open c listen metrics p h =
      let (tls, h_tls, h1) =
        bind-ok
          (listener parse_addr parse_url tls_listener c.tls.listen_addr c.tls.enabled
            (tls_checks c listen metrics))
          h in
      let (quic, h_quic, h2) =
        bind-ok
          (listener parse_addr parse_url quic_listener c.quic.listen_addr c.quic.enabled
            (quic_checks c listen metrics tls))
          h1 in
      let (u, h_auth, h3) = bind-ok (check_all (auth_checks c)) h2 in
      let (admin, h_admin, h4) =
        bind-ok
          (listener parse_addr parse_url admin_listener c.admin.listen_addr c.admin.enabled
            (admin_checks c listen metrics tls quic))
          h3 in
      let (ws, h_ws, h5) =
        bind-ok
          (listener parse_addr parse_url ws_listener c.websocket.listen_addr c.websocket.enabled
            (ws_checks c listen metrics tls quic admin))
          h4 in
      subst (Open c listen metrics) (ok_injective h5) (record {
        tls_passed = listener-Passed _ _ _ _ tls h_tls;
        quic_passed = listener-Passed _ _ _ _ quic h_quic;
        auth_passed = check_all-Passed (auth_checks c) u h_auth;
        admin_passed = listener-Passed _ _ _ _ admin h_admin;
        ws_passed = listener-Passed _ _ _ _ ws h_ws;
      })

  -- The parsed addresses and origins, and the checks that were passed.
  pub record Accepted (env : Env) (c : Config) (v : ValidConfig A) : Type 0 where
    pub fixed : Fixed A
    pub free : Ports A
    pub origins : List NormalizedOrigin
    pub result : v ≡ assemble parse_addr parse_url env c fixed free origins
    pub server_passed : Passed (server_checks c)
    pub control_plane_passed : Passed (control_plane_checks (λ s. is_some (parse_url s)) c)
    pub key_rotation_passed : Passed (key_rotation_checks c)
    pub opened : Open c fixed.listen fixed.metrics_at free
    pub origins_parsed : parse_origins parse_addr parse_url c.websocket.allowed_origins ≡ ok origins

  pub validate-Accepted :
      (env : Env) (c : Config) (v : ValidConfig A)
      → validate parse_addr parse_url env c ≡ ok v
      → Accepted env c v
  unfolding validate
  validate-Accepted env c v h =
      let (f, _, h1) = bind-ok (fixed_addrs parse_addr parse_url c) h in
      let (u, server, h2) = bind-ok (check_all (server_checks c)) h1 in
      let (u', control_plane, h3) =
        bind-ok (check_all (control_plane_checks (λ s. is_some (parse_url s)) c)) h2 in
      let (u'', key_rotation, h4) = bind-ok (check_all (key_rotation_checks c)) h3 in
      let (p, h_ports, h5) = bind-ok (ports parse_addr parse_url c f.listen f.metrics_at) h4 in
      let (origins, parsed, h6) =
        bind-ok (parse_origins parse_addr parse_url c.websocket.allowed_origins) h5 in
      record {
        fixed = f;
        free = p;
        origins = origins;
        result = sym (ok_injective h6);
        server_passed = check_all-Passed (server_checks c) u server;
        control_plane_passed = check_all-Passed _ u' control_plane;
        key_rotation_passed = check_all-Passed (key_rotation_checks c) u'' key_rotation;
        opened = ports-Open c f.listen f.metrics_at p h_ports;
        origins_parsed = parsed;
      }
