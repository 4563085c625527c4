-- ===== src/Identity/Reload.antt =====
-- What `load` of latticeshield-bridge/src/identity.rs and latticeshield-client/src/identity.rs finds after
-- `generate_and_save`.
use latticeshield.Prelude.{
  ℕ, ◌≡◌, ◌≢◌, refl, sym, ap, ◌∙◌, Bool, Bool-cases, Option-cases, inl, inr, true, false, [], ◌∷◌,
  length, take, take_all, ◌==◌, if◌then◌else◌, Option, none, some, Result, ok, err, arith,
}
use latticeshield.Prelude.Bytes.{Bytes}
use latticeshield.Prelude.Text.{Text, codes}
use latticeshield.Crypto.Signing.{
  MlDsa, MlDsaLaws, signing_key_from_bytes, verifying_key_from_bytes, generate_keypair,
}
use latticeshield.Identity.{
  FilePath, FileSystem, FileSystemLaws, insecure_mode, SaveError, vk_path_from, permissions,
  read_start, check_mode, load_signing_key, load_verifying_key, load, next_step, generate_and_save,
}

-- The permissions of the key file: those of the old file, where there was one.
abbrev pub permissions_after : Option ℕ → ℕ
permissions_after none = 384
permissions_after (some k) = permissions k

abbrev initial : Text → ℕ
initial [] = 0
initial (c ∷ cs) = c

sk_apart : codes "sk" ≢ codes "vk"
sk_apart h = let n : ◌≡◌ {A = ℕ} 115 118 = ap initial h in omega arith

module _ (fs : FileSystem) where
  next_step-ok :
      (r : Bool × fs.Files) (e : SaveError) (k : fs.Files → Result SaveError (Unit {0}) × fs.Files)
      (s' : fs.Files)
      → next_step fs r e k ≡ (ok tt, s')
      → (s1 : fs.Files) × (r ≡ (true, s1)) × (k s1 ≡ (ok tt, s'))
  unfolding next_step
  next_step-ok (true, s) e k s' h = (s, refl, h)
  next_step-ok (false, s) e k s' h = cc (ap (λ p. p.0) h)

  check_mode-permissions :
      (p : FilePath) (k : ℕ) (s : fs.Files)
      → fs.metadata p s ≡ some k
      → check_mode fs p s
        ≡ (if permissions k == 384 then ok tt else err (insecure_mode (permissions k)))
  unfolding check_mode
  check_mode-permissions p k s h = rw h refl

  load_signing_key-ok :
      (p : FilePath) (key : Bytes) (s : fs.Files)
      → fs.contents p s ≡ some key
      → length key ≡ 4032
      → load_signing_key fs p s ≡ ok key
  unfolding load_signing_key read_start signing_key_from_bytes
  load_signing_key-ok p key s h n =
      let whole : take 4032 key ≡ key = take_all 4032 key (omega arith) in rw (h, n, whole, n) refl

  load_verifying_key-ok :
      (p : FilePath) (key : Bytes) (s : fs.Files)
      → fs.contents p s ≡ some key
      → length key ≡ 1952
      → load_verifying_key fs p s ≡ ok key
  unfolding load_verifying_key read_start verifying_key_from_bytes
  load_verifying_key-ok p key s h n =
      let whole : take 1952 key ≡ key = take_all 1952 key (omega arith) in rw (h, n, whole, n) refl

module _ (fs : FileSystem) (laws : FileSystemLaws fs) where
  mode_after :
      (p : FilePath) (s s' : fs.Files)
      → fs.create p 384 s ≡ (true, s')
      → (k : ℕ) × (fs.metadata p s' ≡ some k)
        × (permissions k ≡ permissions_after (fs.metadata p s))
  mode_after p s s' h = elim (Option-cases (fs.metadata p s)) [
    | inr (k, old) ↦ (k, laws.kept p 384 k s s' h old, sym (ap permissions_after old))
    | inl new ↦
        let (k, at, same) = laws.created p 384 s s' h refl new in
        (k, at, same ∙ sym (ap permissions_after new))
  ]

  module _ (dsa : MlDsa) (dsa_laws : MlDsaLaws dsa) where
    -- A pair that `generate_and_save` saves without an error is loaded where the permissions of the key file,
    -- which are 0600 when the file is new and the old ones when it is not, are 0600; otherwise the loading
    -- is refused and names them.
    pub load-generate_and_save :
        (stem dir seed : Bytes) (s s' : fs.Files)
        → generate_and_save fs dsa stem dir seed s ≡ (ok tt, s')
        → load fs (record { folder = dir; stem = stem; extension = codes "sk" }) s' ≡ (
            let found =
              permissions_after
                (fs.metadata (record { folder = dir; stem = stem; extension = codes "sk" }) s) in
            if found == 384
            then ok (record {
              signing_key = (generate_keypair dsa seed).0;
              verifying_key = (generate_keypair dsa seed).1;
            })
            else err (insecure_mode found))
    unfolding generate_and_save load vk_path_from generate_keypair
    load-generate_and_save stem dir seed s s' h =
        let sk : FilePath = record { folder = dir; stem = stem; extension = codes "sk" } in
        let vk : FilePath = record { folder = dir; stem = stem; extension = codes "vk" } in
        let apart : sk ≢ vk = λ same. sk_apart (ap (λ p. p.extension) same) in
        let (s1, made, h1) = next_step-ok fs _ _ _ s' h in
        let (s2, opened, h2) = next_step-ok fs _ _ _ s' h1 in
        let (s3, wrote, h3) = next_step-ok fs _ _ _ s' h2 in
        let (s4, opened', h4) = next_step-ok fs _ _ _ s' h3 in
        let (s5, wrote', h5) = next_step-ok fs _ _ _ s' h4 in
        let there : s5 ≡ s' = ap (λ r. r.1) h5 in
        let (k, mode, same) = mode_after sk s1 s2 opened in
        let before : fs.metadata sk s1 ≡ fs.metadata sk s =
          laws.metadata-create_dir_all sk s s1 made in
        let mode' : fs.metadata sk s5 ≡ some k =
          laws.metadata-write_all vk sk _ s4 s5 wrote'
          ∙ (laws.create_apart vk sk 420 s3 s4 (λ e. apart (sym e)) opened').0
          ∙ laws.metadata-write_all sk sk _ s2 s3 wrote
          ∙ mode in
        let signing : fs.contents sk s5 ≡ some (generate_keypair dsa seed).0 =
          laws.write_apart vk sk _ s4 s5 (λ e. apart (sym e)) wrote'
          ∙ (laws.create_apart vk sk 420 s3 s4 (λ e. apart (sym e)) opened').1
          ∙ laws.written sk _ s2 s3 wrote (laws.emptied sk 384 s1 s2 opened) in
        let verifying : fs.contents vk s5 ≡ some (generate_keypair dsa seed).1 =
          laws.written vk _ s4 s5 wrote' (laws.emptied vk 420 s3 s4 opened') in
        rw
          (
            ← there,
            ← before,
            ← same,
            check_mode-permissions fs sk k s5 mode',
            load_signing_key-ok fs sk _ s5 signing (dsa_laws.length-sk seed),
            load_verifying_key-ok fs vk _ s5 verifying (dsa_laws.length-vk seed),
          )
          (elim (Bool-cases (permissions k == 384)) [
            | inl secure ↦ rw secure refl
            | inr insecure ↦ rw insecure refl
          ])
