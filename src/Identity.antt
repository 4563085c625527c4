-- ===== src/Identity.antt =====
-- The key files of latticeshield-bridge/src/identity.rs and latticeshield-client/src/identity.rs. The
-- file system is a parameter; an error is the step that failed. What is printed is not modelled.
use latticeshield.Prelude.{
  ℕ, ◌/◌, ◌%◌, ◌≡◌, ◌≢◌, Bool, true, false, [], length, take, leb, ◌==◌, if◌then◌else◌, Option,
  none, some, Result, ok, err, ok_or, map_err, ◌>>=?◌,
}
use latticeshield.Prelude.Bytes.{Bytes}
use latticeshield.Prelude.Text.{Text, codes}
use latticeshield.Crypto.Signing.{
  MlDsa, signing_key_len, verifying_key_len, signing_key_from_bytes, verifying_key_from_bytes,
  generate_keypair,
}
pub mod Reload

-- The path of a file: `keys`, `server` and `sk` of `keys/server.sk`.
pub record FilePath : Type 0 where
  pub folder : Text
  pub stem : Text
  pub extension : Text

-- The file system: the mode of a file and what a reader finds in it; and `create_dir_all`, the opening
-- for writing with `create`, `truncate` and a mode, and `write_all` to the file so opened, each with
-- whether it succeeds.
pub record FileSystem : Type 1 where
  pub Files : Type 0
  pub metadata : FilePath → Files → Option ℕ
  pub contents : FilePath → Files → Option Bytes
  pub create_dir_all : Text → Files → Bool × Files
  pub create : FilePath → ℕ → Files → Bool × Files
  pub write_all : FilePath → Bytes → Files → Bool × Files

-- POSIX, for a process that reads the files that it may write, where no two paths name one file and
-- nobody else writes. A new file gets the mode without the umask, which has no bit of the owner; an old
-- one is emptied and keeps its mode.
pub record FileSystemLaws (fs : FileSystem) : Type 0 where
  pub metadata-create_dir_all :
      (p : FilePath) (s s' : fs.Files)
      → fs.create_dir_all p.folder s ≡ (true, s')
      → fs.metadata p s' ≡ fs.metadata p s
  pub created :
      (p : FilePath) (mode : ℕ) (s s' : fs.Files)
      → fs.create p mode s ≡ (true, s')
      → mode % 64 ≡ 0
      → fs.metadata p s ≡ none
      → (k : ℕ) × (fs.metadata p s' ≡ some k) × (k % 512 ≡ mode % 512)
  pub kept :
      (p : FilePath) (mode k : ℕ) (s s' : fs.Files)
      → fs.create p mode s ≡ (true, s')
      → fs.metadata p s ≡ some k
      → fs.metadata p s' ≡ some k
  pub emptied :
      (p : FilePath) (mode : ℕ) (s s' : fs.Files)
      → fs.create p mode s ≡ (true, s')
      → fs.contents p s' ≡ some []
  pub written :
      (p : FilePath) (bytes : Bytes) (s s' : fs.Files)
      → fs.write_all p bytes s ≡ (true, s')
      → fs.contents p s ≡ some []
      → fs.contents p s' ≡ some bytes
  pub metadata-write_all :
      (p q : FilePath) (bytes : Bytes) (s s' : fs.Files)
      → fs.write_all p bytes s ≡ (true, s')
      → fs.metadata q s' ≡ fs.metadata q s
  pub create_apart :
      (p q : FilePath) (mode : ℕ) (s s' : fs.Files)
      → p ≢ q
      → fs.create p mode s ≡ (true, s')
      → (fs.metadata q s' ≡ fs.metadata q s) × (fs.contents q s' ≡ fs.contents q s)
  pub write_apart :
      (p q : FilePath) (bytes : Bytes) (s s' : fs.Files)
      → p ≢ q
      → fs.write_all p bytes s ≡ (true, s')
      → fs.contents q s' ≡ fs.contents q s

-- `ServerIdentity` and `ClientIdentity`.
pub record Identity : Type 0 where
  pub signing_key : Bytes
  pub verifying_key : Bytes

pub data LoadError : Type 0 where
  no_metadata : LoadError
  insecure_mode : ℕ → LoadError
  no_signing_key truncated_signing_key invalid_signing_key : LoadError
  no_verifying_key truncated_verifying_key invalid_verifying_key : LoadError

pub data SaveError : Type 0 where
  creating_folder creating_signing_key writing_signing_key : SaveError
  creating_verifying_key writing_verifying_key : SaveError

-- What `ClientVerifyingIdentity::load` fails with; the size is the one found.
pub data IdentityError : Type 0 where
  io invalid_key : IdentityError
  invalid_size : ℕ → IdentityError

unfoldable pub vk_path_from : FilePath → FilePath
vk_path_from p = record { folder = p.folder; stem = p.stem; extension = codes "vk" }

-- The bits 0o777 of a mode.
abbrev pub permissions : ℕ → ℕ
permissions mode = mode % 512

-- `read_exact` into an array of `n` bytes, from the start of a file.
unfoldable pub read_start : ℕ → Bytes → Option Bytes
read_start n bytes = if leb n (length bytes) then some (take n bytes) else none

module _ (fs : FileSystem) where
  unfoldable pub check_mode : FilePath → fs.Files → Result LoadError (Unit {0})
  check_mode p s = ok_or (fs.metadata p s) no_metadata >>=? λ mode.
      if permissions mode == 384 then ok tt else err (insecure_mode (permissions mode))

  unfoldable pub load_signing_key : FilePath → fs.Files → Result LoadError Bytes
  load_signing_key p s = ok_or (fs.contents p s) no_signing_key >>=? λ file.
      ok_or (read_start signing_key_len file) truncated_signing_key >>=? λ buf.
      map_err (λ e. invalid_signing_key) (signing_key_from_bytes buf)

  unfoldable pub load_verifying_key : FilePath → fs.Files → Result LoadError Bytes
  load_verifying_key p s = ok_or (fs.contents p s) no_verifying_key >>=? λ file.
      ok_or (read_start verifying_key_len file) truncated_verifying_key >>=? λ buf.
      map_err (λ e. invalid_verifying_key) (verifying_key_from_bytes buf)

  -- `load` of both identities.
  unfoldable pub load : FilePath → fs.Files → Result LoadError Identity
  load sk_path s = check_mode sk_path s >>=? λ _. load_signing_key sk_path s >>=? λ signing_key.
      load_verifying_key (vk_path_from sk_path) s >>=? λ verifying_key.
      ok (record { signing_key = signing_key; verifying_key = verifying_key })

  -- `load` of `ClientVerifyingIdentity` and `ControlPlaneVerifyingIdentity`, which are the key alone. A
  -- file that is longer is refused here.
  unfoldable pub load_verifying_identity : FilePath → fs.Files → Result IdentityError Bytes
  load_verifying_identity vk_path s = ok_or (fs.contents vk_path s) io >>=? λ data_read.
      if length data_read == verifying_key_len
      then map_err (λ e. invalid_key) (verifying_key_from_bytes data_read)
      else err (invalid_size (length data_read))

  -- The next step, where the last one succeeded.
  unfoldable pub next_step :
      Bool × fs.Files
      → SaveError
      → (fs.Files → Result SaveError (Unit {0}) × fs.Files)
      → Result SaveError (Unit {0}) × fs.Files
  next_step (true, s) e k = k s
  next_step (false, s) e k = (err e, s)

  -- `generate_and_save` of both identities, which differ in the name of the files.
  unfoldable pub generate_and_save :
      MlDsa → (stem dir seed : Bytes) → fs.Files → Result SaveError (Unit {0}) × fs.Files
  generate_and_save dsa stem dir seed s =
      let keys = generate_keypair dsa seed in
      let sk_path : FilePath = record { folder = dir; stem = stem; extension = codes "sk" } in
      let vk_path : FilePath = record { folder = dir; stem = stem; extension = codes "vk" } in
      next_step (fs.create_dir_all dir s) creating_folder (λ s1.
        next_step (fs.create sk_path 384 s1) creating_signing_key (λ s2.
          next_step (fs.write_all sk_path keys.0 s2) writing_signing_key (λ s3.
            next_step (fs.create vk_path 420 s3) creating_verifying_key (λ s4.
              next_step (fs.write_all vk_path keys.1 s4) writing_verifying_key
                (λ s5. (ok tt, s5))))))
