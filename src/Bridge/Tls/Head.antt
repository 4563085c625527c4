-- ===== src/Bridge/Tls/Head.antt =====
-- The reading of a request's head in latticeshield-bridge/src/server.rs ends, within bounds.
use latticeshield.Prelude.{
  ℕ, suc, ◌+◌, ◌≤◌, ◌<◌, ◌≡◌, refl, ap, inl, inr, true, false, Bool-cases, List, [], ◌∷◌, ◌++◌,
  length, length-append, leb, leb→le, Option, none, some, arith,
}
use latticeshield.Prelude.Bytes.{Bytes}
use latticeshield.Bridge.Tls.{
  max_head_bytes, HeadResult, complete, too_large, eof, waiting, starts_with_end, has_end,
  after_read, read_http_head_inplace,
}

-- A read fills a buffer of 4096 bytes at most.
abbrev pub ChunksFit : List (Option Bytes) → Type 0
ChunksFit [] = Unit {0}
ChunksFit (none ∷ reads) = ChunksFit reads
ChunksFit (some bs ∷ reads) = (length bs ≤ 4096) × ChunksFit reads

-- The bytes hold the empty line that ends the headers.
abbrev pub HasEnd : Bytes → Type 0
HasEnd bs = (before : Bytes) × (after : Bytes) × (bs ≡ before ++ (13 ∷ 10 ∷ 13 ∷ 10 ∷ after))

-- More is read: no end yet, and less than 8 KiB.
abbrev pub Open : Bytes → Type 0
Open buf = (¬ HasEnd buf) × (length buf < 8192)

-- The first `n` reads all gave bytes, were all made because more was wanted, and took `buf` to `bytes`.
abbrev pub Taken : (n : ℕ) (buf : Bytes) → List (Option Bytes) → (bytes : Bytes) → Type 0
Taken ℕ.zero buf reads bytes = bytes ≡ buf
Taken (suc n) buf [] bytes = ⊥
Taken (suc n) buf (none ∷ reads) bytes = ⊥
Taken (suc n) buf (some [] ∷ reads) bytes = ⊥
Taken (suc n) buf (some (b ∷ bs) ∷ reads) bytes = Open buf × Taken n (buf ++ (b ∷ bs)) reads bytes

-- The read after the first `n` gave an error or the end of the stream.
abbrev pub Ended : (n : ℕ) → List (Option Bytes) → Type 0
Ended n [] = ⊥
Ended ℕ.zero (none ∷ reads) = Unit {0}
Ended ℕ.zero (some [] ∷ reads) = Unit {0}
Ended ℕ.zero (some (b ∷ bs) ∷ reads) = ⊥
Ended (suc n) (read ∷ reads) = Ended n reads

-- What each result says of the reads.
abbrev pub Bounded : (buf : Bytes) → List (Option Bytes) → HeadResult → Type 0
Bounded buf reads (complete head) =
    (n : ℕ) × Taken n buf reads head × HasEnd head × (length head < 12288)
Bounded buf reads too_large =
    (n : ℕ) × (bytes : Bytes) × Taken n buf reads bytes × (¬ HasEnd bytes) × (8192 ≤ length bytes)
Bounded buf reads eof =
    (n : ℕ) × (bytes : Bytes) × Taken n buf reads bytes × Open bytes × Ended n reads
Bounded buf reads waiting =
    (n : ℕ) × (bytes : Bytes) × Taken n buf reads bytes
    × Open bytes
    × (n ≡ length reads)
    × (length buf + n < 8192)

starts-HasEnd : (bs : Bytes) → starts_with_end bs ≡ true → HasEnd bs
starts-HasEnd [] h = cc
starts-HasEnd (a ∷ []) h = cc
starts-HasEnd (a ∷ b ∷ []) h = cc
starts-HasEnd (a ∷ b ∷ c ∷ []) h = cc
starts-HasEnd (a ∷ b ∷ c ∷ d ∷ rest) h = ([], rest, ground arith)

has_end-HasEnd : (bs : Bytes) → has_end bs ≡ true → HasEnd bs
unfolding has_end
has_end-HasEnd [] h = cc
has_end-HasEnd (b ∷ bs) h = elim (Bool-cases (starts_with_end (b ∷ bs))) [
  | inl here ↦ starts-HasEnd (b ∷ bs) here
  | inr no_start ↦
      let (before, after, e) = has_end-HasEnd bs (rw no_start at h) in
      (b ∷ before, after, ap (λ l. b ∷ l) e)
]

has_end-append : (before after : Bytes) → has_end (before ++ (13 ∷ 10 ∷ 13 ∷ 10 ∷ after)) ≡ true
unfolding has_end
has_end-append [] after = refl
has_end-append (b ∷ before) after =
    elim (Bool-cases (starts_with_end (b ∷ (before ++ (13 ∷ 10 ∷ 13 ∷ 10 ∷ after))))) [
      | inl here ↦ rw here refl
      | inr no_start ↦ rw no_start (has_end-append before after)
    ]

not-HasEnd : (bs : Bytes) → has_end bs ≡ false → ¬ HasEnd bs
not-HasEnd bs h (before, after, e) = cc (h, ap has_end e, has_end-append before after)

after_chunk :
    (buf : Bytes) (b : ℕ) (bs : Bytes) (reads : List (Option Bytes)) (r : HeadResult)
    → Open buf
    → Bounded (buf ++ (b ∷ bs)) reads r
    → Bounded buf (some (b ∷ bs) ∷ reads) r
after_chunk buf b bs reads (complete head) more (n, taken, e, short) =
    (suc n, (more, taken), e, short)
after_chunk buf b bs reads too_large more (n, bytes, taken, e, long) =
    (suc n, bytes, (more, taken), e, long)
after_chunk buf b bs reads eof more (n, bytes, taken, opens, ended) =
    (suc n, bytes, (more, taken), opens, ended)
after_chunk buf b bs reads waiting more (n, bytes, taken, opens, all_read, few) =
    (suc n, bytes, (more, taken), opens, ap suc all_read, omega (arith, length-append buf (b ∷ bs)))

chunk_Bounded :
    (new : Bytes) (reads : List (Option Bytes)) (later : HeadResult)
    → length new < 12288
    → (Open new → Bounded new reads later)
    → Bounded new reads (after_read new later)
unfolding after_read
chunk_Bounded new reads later short k = elim (Bool-cases (leb max_head_bytes (length new))) [
  | inl long ↦ elim (Bool-cases (has_end new)) [
    | inl e ↦ rw (long, e) (0, refl, has_end-HasEnd new e, short)
    | inr e ↦ rw (long, e) (0, new, refl, not-HasEnd new e, leb→le max_head_bytes (length new) long)
  ]
  | inr fits ↦ elim (Bool-cases (has_end new)) [
    | inl e ↦ rw (fits, e) (0, refl, has_end-HasEnd new e, short)
    | inr e ↦ rw (fits, e) (k (not-HasEnd new e, ground arith))
  ]
]

read-Bounded :
    (reads : List (Option Bytes)) (buf : Bytes)
    → ChunksFit reads
    → Open buf
    → Bounded buf reads (read_http_head_inplace reads buf)
unfolding read_http_head_inplace
read-Bounded [] buf fit more =
    let below : leb max_head_bytes (length buf) ≡ false = ground (arith, more.1) in
    rw below (0, buf, refl, more, refl, omega (arith, more.1))
read-Bounded (none ∷ reads) buf fit more =
    let below : leb max_head_bytes (length buf) ≡ false = ground (arith, more.1) in
    rw below (0, buf, refl, more, tt)
read-Bounded (some [] ∷ reads) buf fit more =
    let below : leb max_head_bytes (length buf) ≡ false = ground (arith, more.1) in
    rw below (0, buf, refl, more, tt)
read-Bounded (some (b ∷ bs) ∷ reads) buf fit more =
    let below : leb max_head_bytes (length buf) ≡ false = ground (arith, more.1) in
    let ih = read-Bounded reads (buf ++ (b ∷ bs)) fit.1 in
    rw below (
      after_chunk buf b bs reads _ more (
        chunk_Bounded (buf ++ (b ∷ bs)) reads (read_http_head_inplace reads (buf ++ (b ∷ bs)))
          (omega (arith, fit.0, more.1, length-append buf (b ∷ bs))) ih))

-- The reading of a head ends, whatever the client sends in reads of at most 4096 bytes, by its
-- 8192nd read at the latest. It reads on exactly as long as what has arrived is below 8 KiB and
-- does not contain the empty line that ends the headers. Then: a head is complete where what has
-- arrived contains that line, is exactly that and has less than 12 KiB; it is too large where 8 KiB
-- or more have arrived without that line; it is at the end of the stream where the next read gives
-- an error or no bytes; and it is still waiting only where all reads so far, fewer than 8192, have
-- given bytes.
pub read_http_head_inplace-Bounded :
    (reads : List (Option Bytes))
    → ChunksFit reads
    → Bounded [] reads (read_http_head_inplace reads [])
unfolding has_end
read_http_head_inplace-Bounded reads fit =
    read-Bounded reads [] fit (not-HasEnd [] nothing, omega arith)
  where
    nothing : has_end [] ≡ false
    nothing = refl
