-- ===== src/Bridge/Acceptor.antt =====
-- The set-up of a TLS listener from its files (latticeshield-bridge/src/tls.rs). The crates rustls and rustls_pemfile are
-- arguments.
use latticeshield.Prelude.{List, [], ◌∷◌, Option, Result, ok, err, ok_or, ◌>>=?◌}
use latticeshield.Prelude.Bytes.{Bytes}
use latticeshield.Identity.{FilePath, FileSystem}

pub data TlsError : Type 0 where
  opening_certs parsing_certs no_certificates : TlsError
  opening_key parsing_key no_key : TlsError
  invalid_pair : TlsError

-- `certs` and `private_key` of rustls_pemfile, and `with_single_cert` of a builder for TLS 1.3 without client authentication.
pub record Rustls : Type 1 where
  pub ServerConfig : Type 0
  pub certs : Bytes → Option (List Bytes)
  pub private_key : Bytes → Option (Option Bytes)
  pub with_single_cert : List Bytes → Bytes → Option ServerConfig

module _ (fs : FileSystem) (rustls : Rustls) where
  unfoldable pub load_certs : FilePath → fs.Files → Result TlsError (List Bytes)
  load_certs path s = ok_or (fs.contents path s) opening_certs >>=? λ f.
      ok_or (rustls.certs f) parsing_certs >>=? nonempty
    where
      nonempty : List Bytes → Result TlsError (List Bytes)
      nonempty [] = err no_certificates
      nonempty (c ∷ cs) = ok (c ∷ cs)

  unfoldable pub load_key : FilePath → fs.Files → Result TlsError Bytes
  load_key path s = ok_or (fs.contents path s) opening_key >>=? λ f.
      ok_or (rustls.private_key f) parsing_key >>=? λ key. ok_or key no_key

  unfoldable pub build_server_config :
      (cert_path key_path : FilePath) → fs.Files → Result TlsError rustls.ServerConfig
  build_server_config cert_path key_path s = load_certs cert_path s >>=? λ certs.
      load_key key_path s >>=? λ key. ok_or (rustls.with_single_cert certs key) invalid_pair
