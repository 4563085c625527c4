-- ===== src/Bridge/Config/Separate.antt =====
-- The addresses of the listeners in a configuration that `validate` (latticeshield-bridge/src/config.rs)
-- accepts.
use latticeshield.Prelude.{
  ◌≡◌, ◌≢◌, refl, sym, subst, Bool, true, false, ◌&&◌, List, [], ◌∷◌, ◌++◌, All, Option, ok, arith,
}
use latticeshield.Prelude.Text.{Text}
use latticeshield.Prelude.Dict.{Key}
use latticeshield.Bridge.Ws.Origin.{Url}
use latticeshield.Bridge.Config.Sections.{Config}
use latticeshield.Bridge.Config.Checks.{Ports}
use latticeshield.Bridge.Config.Validate.{Env, ValidConfig, validate}
use latticeshield.Bridge.Config.Accepted.{Accepted, Open, validate-Accepted}

-- The addresses of the listeners that are switched on, beside the server and the metrics.
abbrev pub switched_on {ℓ} : {A : Type ℓ} → Bool → A → List A
switched_on true a = a ∷ []
switched_on false a = []

abbrev pub optional : {A : Type 0} → ValidConfig A → List A
optional v =
    switched_on v.tls_enabled v.tls_listen_addr
    ++ (switched_on v.quic_enabled v.quic_listen_addr
        ++ (switched_on v.admin_enabled v.admin_listen_addr
            ++ switched_on v.ws_enabled v.ws_listen_addr))

abbrev pub Distinct : {A : Type 0} → List A → Type 0
Distinct [] = Unit {0}
Distinct (a ∷ xs) = All (λ b. b ≢ a) xs × Distinct xs

switched_on-All {ℓ} :
    {A : Type ℓ} (P : A → Type 0) (b : Bool) (a : A) → (b ≡ true → P a) → All P (switched_on b a)
switched_on-All P true a h = (h refl, tt)
switched_on-All P false a h = tt

All-append {ℓ} :
    {A : Type ℓ} (P : A → Type 0) (xs ys : List A) → All P xs → All P ys → All P (xs ++ ys)
All-append P [] ys h k = k
All-append P (x ∷ xs) ys h k = (h.0, All-append P xs ys h.1 k)

Distinct-switched_on :
    {A : Type 0} (b : Bool) (a : A) (xs : List A)
    → (b ≡ true → All (λ x. x ≢ a) xs)
    → Distinct xs
    → Distinct (switched_on b a ++ xs)
Distinct-switched_on true a xs h d = (h refl, d)
Distinct-switched_on false a xs h d = d

module _ {A : Type 0} ⦃key : Key A⦄ where
  apart : (a b : A) → key.same a b ≡ false → a ≢ b
  apart a b h e = ground (arith, key.same_iff a b)

  apart_if : (on : Bool) (a b : A) → on ≡ true → (on && key.same a b) ≡ false → a ≢ b
  apart_if on a b t h = apart a b (rw t at h)

abbrev pub Separated : {A : Type 0} → ValidConfig A → Type 0
Separated v =
    Distinct (optional v) × All (λ a. (a ≢ v.listen_addr) × (a ≢ v.metrics_addr)) (optional v)

one_Distinct : {A : Type 0} (b : Bool) (a : A) → Distinct (switched_on b a)
one_Distinct true a = (tt, tt)
one_Distinct false a = tt

module _ {A : Type 0} ⦃key : Key A⦄ (parse_addr : Text → Option A)
    (parse_url : Text → Option Url) where
  Accepted-Distinct :
      (env : Env) (c : Config) (v : ValidConfig A)
      → Accepted parse_addr parse_url env c v
      → Distinct (optional v)
  Accepted-Distinct env c v a =
      subst (λ x. Distinct (optional x)) (sym a.result)
        (Distinct-switched_on c.tls.enabled p.tls_at _
          (λ t.
            All-append _ (switched_on c.quic.enabled p.quic_at) _
              (switched_on-All _ c.quic.enabled p.quic_at
                (λ q. apart_if c.tls.enabled p.quic_at p.tls_at t (o.quic_passed q).1.1.1.0))
              (All-append _ (switched_on c.admin.enabled p.admin_at) _
                (switched_on-All _ c.admin.enabled p.admin_at (λ q.
                  apart_if c.tls.enabled p.admin_at p.tls_at t (o.admin_passed q).1.1.1.1.1.0))
                (switched_on-All _ c.websocket.enabled p.ws_at
                  (λ q. apart_if c.tls.enabled p.ws_at p.tls_at t (o.ws_passed q).1.1.1.1.0))))
          (Distinct-switched_on c.quic.enabled p.quic_at _
            (λ t.
              All-append _ (switched_on c.admin.enabled p.admin_at) _
                (switched_on-All _ c.admin.enabled p.admin_at (λ q.
                  apart_if c.quic.enabled p.admin_at p.quic_at t (o.admin_passed q).1.1.1.1.1.1.0))
                (switched_on-All _ c.websocket.enabled p.ws_at
                  (λ q. apart_if c.quic.enabled p.ws_at p.quic_at t (o.ws_passed q).1.1.1.1.1.0)))
            (Distinct-switched_on c.admin.enabled p.admin_at _
              (λ t.
                switched_on-All _ c.websocket.enabled p.ws_at (λ q.
                  apart_if c.admin.enabled p.ws_at p.admin_at t (o.ws_passed q).1.1.1.1.1.1.0))
              (one_Distinct c.websocket.enabled p.ws_at))))
    where
      p : Ports A
      p = a.free

      o : Open parse_addr parse_url c a.fixed.listen a.fixed.metrics_at a.free
      o = a.opened

  Accepted-Clear :
      (env : Env) (c : Config) (v : ValidConfig A)
      → Accepted parse_addr parse_url env c v
      → All (λ x. (x ≢ v.listen_addr) × (x ≢ v.metrics_addr)) (optional v)
  Accepted-Clear env c v a =
      subst (λ y. All (λ x. (x ≢ y.listen_addr) × (x ≢ y.metrics_addr)) (optional y)) (sym a.result)
        (All-append _ (switched_on c.tls.enabled p.tls_at) _
          (switched_on-All _ c.tls.enabled p.tls_at
            (λ q. (apart _ _ (o.tls_passed q).1.1.0, apart _ _ (o.tls_passed q).1.1.1.0)))
          (All-append _ (switched_on c.quic.enabled p.quic_at) _
            (switched_on-All _ c.quic.enabled p.quic_at
              (λ q. (apart _ _ (o.quic_passed q).1.1.0, apart _ _ (o.quic_passed q).1.1.1.1.0)))
            (All-append _ (switched_on c.admin.enabled p.admin_at) _
              (switched_on-All _ c.admin.enabled p.admin_at (λ q.
                (apart _ _ (o.admin_passed q).1.1.1.0, apart _ _ (o.admin_passed q).1.1.1.1.0)))
              (switched_on-All _ c.websocket.enabled p.ws_at
                (λ q. (apart _ _ (o.ws_passed q).1.1.0, apart _ _ (o.ws_passed q).1.1.1.0))))))
    where
      p : Ports A
      p = a.free

      o : Open parse_addr parse_url c a.fixed.listen a.fixed.metrics_at a.free
      o = a.opened

  -- In every configuration that `validate` accepts, the addresses of the TLS, QUIC, admin and
  -- WebSocket listeners that are switched on are pairwise different, and each differs from the
  -- server's address and from that of the metrics. Nothing is said of those two.
  pub validate-Separated :
      (env : Env) (c : Config) (v : ValidConfig A)
      → validate parse_addr parse_url env c ≡ ok v
      → Separated v
  validate-Separated env c v h =
      let a = validate-Accepted parse_addr parse_url env c v h in
      (Accepted-Distinct env c v a, Accepted-Clear env c v a)
