-- ===== src/Tests/Identities.antt =====
-- A file system that satisfies the laws and can be run, and a key file that is too open.
use latticeshield.Prelude.{
  ℕ, ◌%◌, ◌≡◌, ◌≢◌, ◌↔◌, refl, sym, ap, ◌∙◌, Bool, true, false, ◌&&◌, [], ◌∷◌, Option, none, some,
  Option-cases, Bool-cases, inl, inr, err, arith,
}
use latticeshield.Prelude.Bytes.{Bytes}
use latticeshield.Prelude.Text.{codes, text_eq, text_eq_iff}
use latticeshield.Prelude.Dict.{Key, Dict, lookup, insert, lookup-insert}
use latticeshield.Identity.{
  FilePath, FileSystem, FileSystemLaws, insecure_mode, load, generate_and_save, next_step,
}
use latticeshield.Identity.Reload.{load-generate_and_save}
use latticeshield.Tests.Exchange.{toy_dsa, toy_dsa_laws}

abbrev path_eq : FilePath → FilePath → Bool
path_eq p q = text_eq p.folder q.folder && text_eq p.stem q.stem && text_eq p.extension q.extension

path_eq_iff : (p q : FilePath) → (path_eq p q ≡ true) ↔ (p ≡ q)
path_eq_iff p q = ground (
  arith,
  text_eq_iff p.folder q.folder,
  text_eq_iff p.stem q.stem,
  text_eq_iff p.extension q.extension,
)

instance abbrev path_key : Key FilePath
path_key = record { same = path_eq; same_iff = path_eq_iff }

-- Modes and contents.
abbrev Disk : Type 0
Disk = Dict FilePath (ℕ × Bytes)

abbrev mode_in : Option (ℕ × Bytes) → Option ℕ
mode_in none = none
mode_in (some f) = some f.0

abbrev bytes_in : Option (ℕ × Bytes) → Option Bytes
bytes_in none = none
bytes_in (some f) = some f.1

abbrev mode_for : ℕ → Option (ℕ × Bytes) → ℕ
mode_for mode none = mode
mode_for mode (some f) = f.0

abbrev write : FilePath → Bytes → Disk → Option (ℕ × Bytes) → Bool × Disk
write p bytes s none = (false, s)
write p bytes s (some f) = (true, insert p (f.0, bytes) s)

abbrev disk : FileSystem
disk = record {
  Files = Disk;
  metadata = λ p s. mode_in (lookup p s);
  contents = λ p s. bytes_in (lookup p s);
  create_dir_all = λ dir s. (true, s);
  create = λ p mode s. (true, insert p (mode_for mode (lookup p s), []) s);
  write_all = λ p bytes s. write p bytes s (lookup p s);
}

module _ (p : FilePath) (s s' : Disk) where
  same_key : path_eq p p ≡ true
  same_key = (path_eq_iff p p).1 refl

  created_at :
      (mode : ℕ)
      → disk.create p mode s ≡ (true, s')
      → lookup p s' ≡ some (mode_for mode (lookup p s), [])
  created_at mode h =
      rw (← ap (λ r. r.1) h, lookup-insert p p (mode_for mode (lookup p s), []) s, same_key) refl

  wrote_at :
      (bytes : Bytes)
      → disk.write_all p bytes s ≡ (true, s')
      → (f : ℕ × Bytes) × (lookup p s ≡ some f) × (insert p (f.0, bytes) s ≡ s')
  wrote_at bytes h = elim (Option-cases (lookup p s)) [
    | inl absent ↦ cc (ap (λ r. r.0) (rw absent at h))
    | inr (f, there) ↦ (f, there, ap (λ r. r.1) (rw there at h))
  ]

apart : (p q : FilePath) → p ≢ q → path_eq p q ≡ false
apart p q n = ground (arith, path_eq_iff p q)

new_mode : (mode : ℕ) (o : Option (ℕ × Bytes)) → mode_in o ≡ none → mode_for mode o ≡ mode
new_mode mode none h = refl
new_mode mode (some f) h = cc

old_mode : (mode k : ℕ) (o : Option (ℕ × Bytes)) → mode_in o ≡ some k → mode_for mode o ≡ k
old_mode mode k none h = cc
old_mode mode k (some f) h = cc

mode_kept :
    (p q : FilePath) (s s' : Disk) (bytes : Bytes)
    → disk.write_all p bytes s ≡ (true, s')
    → disk.metadata q s' ≡ disk.metadata q s
mode_kept p q s s' bytes h =
    let (f, there, r) = wrote_at p s s' bytes h in
    elim (Bool-cases (path_eq p q)) [
      | inl same ↦
          let at : lookup q s ≡ some f =
            ap (λ x. lookup x s) (sym ((path_eq_iff p q).0 same)) ∙ there in
          rw (← r, lookup-insert p q (f.0, bytes) s, same, at) refl
      | inr other ↦ rw (← r, lookup-insert p q (f.0, bytes) s, other) refl
    ]

disk_laws : FileSystemLaws disk
disk_laws = record {
  metadata-create_dir_all = λ p s s' h. ap (λ r. mode_in (lookup p r.1)) (sym h);
  created = λ p mode s s' h n absent. (
    mode_for mode (lookup p s),
    ap mode_in (created_at p s s' mode h),
    ap (λ k. k % 512) (new_mode mode (lookup p s) absent),
  );
  kept = λ p mode k s s' h old.
      ap mode_in (created_at p s s' mode h) ∙ ap some (old_mode mode k (lookup p s) old);
  emptied = λ p mode s s' h. ap bytes_in (created_at p s s' mode h);
  written = λ p bytes s s' h empty.
      let (f, there, r) = wrote_at p s s' bytes h in
      rw (← r, lookup-insert p p (f.0, bytes) s, same_key p s s') refl;
  metadata-write_all = λ p q bytes s s' h. mode_kept p q s s' bytes h;
  create_apart = λ p q mode s s' n h.
      rw (← ap (λ r. r.1) h, lookup-insert p q (mode_for mode (lookup p s), []) s, apart p q n)
        (refl, refl);
  write_apart = λ p q bytes s s' n h.
      let (f, there, r) = wrote_at p s s' bytes h in
      rw (← r, lookup-insert p q (f.0, bytes) s, apart p q n) refl;
}

abbrev server_key : FilePath
server_key = record { folder = codes "keys"; stem = codes "server"; extension = codes "sk" }

-- The key file stands there already, with the mode 0644.
abbrev opened_to_all : Disk
opened_to_all = (server_key, (420, 1 ∷ [])) ∷ []

abbrev saved_to : Disk
saved_to = (generate_and_save disk toy_dsa (codes "server") (codes "keys") [] opened_to_all).1

load-generate_and_save_example : load disk server_key saved_to ≡ err (insecure_mode 420)
unfolding lookup insert text_eq generate_and_save next_step
load-generate_and_save_example =
    load-generate_and_save disk disk_laws toy_dsa toy_dsa_laws (codes "server") (codes "keys") []
      opened_to_all saved_to refl
