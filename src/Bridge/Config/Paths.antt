-- ===== src/Bridge/Config/Paths.antt =====
-- The files that the listeners of an accepted configuration need (latticeshield-bridge/src/config.rs).
use latticeshield.Prelude.{
  ◌≡◌, refl, sym, subst, Bool, true, false, ◌&&◌, [], ◌⊎◌, inl, inr, Option, none, some, ok,
}
use latticeshield.Prelude.Text.{Text, is_empty}
use latticeshield.Prelude.Dict.{Key}
use latticeshield.Bridge.Ws.Origin.{Url, is_some}
use latticeshield.Bridge.Config.Sections.{Config}
use latticeshield.Bridge.Config.Checks.{is_none}
use latticeshield.Bridge.Config.Validate.{Env, ValidConfig, validate, unwrap_or}
use latticeshield.Bridge.Config.Accepted.{Accepted, Open, validate-Accepted}

-- What is switched off, or has its path.
abbrev pub Backed : Bool → Option Text → Type 0
Backed on path = (on ≡ false) ⊎ ((p : Text) × (path ≡ some p))

-- The paths that starting the listeners unwraps.
pub record Equipped {A : Type 0} (c : Config) (v : ValidConfig A) : Type 0 where
  pub as_required : v.client_auth_enabled ≡ c.auth.require_client_auth
  pub client_vk : Backed v.client_auth_enabled v.client_vk_path
  pub admin_vk : Backed v.admin_enabled v.admin_control_plane_vk_path
  pub quic_cert : (v.quic_enabled ≡ false) ⊎ (c.quic.cert_path ≡ some v.quic_cert_path)
  pub quic_key : (v.quic_enabled ≡ false) ⊎ (c.quic.key_path ≡ some v.quic_key_path)
  pub ws_cert : (v.ws_enabled ≡ false) ⊎ (c.websocket.cert_path ≡ some v.ws_cert_path)
  pub ws_key : (v.ws_enabled ≡ false) ⊎ (c.websocket.key_path ≡ some v.ws_key_path)
  pub tls_paths :
      (v.tls_enabled ≡ false)
      ⊎ ((is_empty v.tls_cert_path ≡ false) × (is_empty v.tls_key_path ≡ false))

backed : (o : Option Text) → is_none o ≡ false → (p : Text) × (o ≡ some p)
backed none h = cc
backed (some p) h = (p, refl)

unwrapped : (o : Option Text) → is_none o ≡ false → o ≡ some (unwrap_or o [])
unwrapped none h = cc
unwrapped (some p) h = refl

when : {P : Type 0} (b : Bool) → (b ≡ true → P) → (b ≡ false) ⊎ P
when true h = inr (h refl)
when false h = inl refl

required : (b : Bool) (o : Option Text) → (b && is_none o) ≡ false → (b && is_some o) ≡ b
required true none h = cc
required true (some p) h = refl
required false o h = refl

required-Backed :
    (b : Bool) (o : Option Text) → (b && is_none o) ≡ false → Backed (b && is_some o) o
required-Backed true none h = cc
required-Backed true (some p) h = inr (p, refl)
required-Backed false o h = inl refl

module _ {A : Type 0} ⦃key : Key A⦄ (parse_addr : Text → Option A)
    (parse_url : Text → Option Url) where
  Accepted-Equipped :
      (env : Env) (c : Config) (v : ValidConfig A)
      → Accepted parse_addr parse_url env c v
      → Equipped c v
  Accepted-Equipped env c v a = subst (Equipped c) (sym a.result) (record {
    as_required = required c.auth.require_client_auth c.auth.client_vk_path o.auth_passed.0;
    client_vk = required-Backed c.auth.require_client_auth c.auth.client_vk_path o.auth_passed.0;
    admin_vk = when c.admin.enabled (λ q. backed _ (o.admin_passed q).0);
    quic_cert = when c.quic.enabled (λ q. unwrapped _ (o.quic_passed q).0);
    quic_key = when c.quic.enabled (λ q. unwrapped _ (o.quic_passed q).1.0);
    ws_cert = when c.websocket.enabled (λ q. unwrapped _ (o.ws_passed q).0);
    ws_key = when c.websocket.enabled (λ q. unwrapped _ (o.ws_passed q).1.0);
    tls_paths = when c.tls.enabled (λ q. ((o.tls_passed q).0, (o.tls_passed q).1.0));
  })
    where
      o : Open parse_addr parse_url c a.fixed.listen a.fixed.metrics_at a.free
      o = a.opened

  -- In every configuration that `validate` accepts, client authentication is on exactly where the
  -- file requires it, and then has the path of the client's key; the admin listener has the path of
  -- its key where it is on; the certificate and key paths of the QUIC and WebSocket listeners that
  -- are on are the ones of the file, which sets them; and those of the TLS listener are not empty
  -- where it is on.
  pub validate-Equipped :
      (env : Env) (c : Config) (v : ValidConfig A)
      → validate parse_addr parse_url env c ≡ ok v
      → Equipped c v
  validate-Equipped env c v h =
      Accepted-Equipped env c v (validate-Accepted parse_addr parse_url env c v h)
