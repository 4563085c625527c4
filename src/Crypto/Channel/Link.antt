-- ===== src/Crypto/Channel/Link.antt =====
-- The two halves of a connection as the channel uses them, `AsyncReadExt::read_exact` and
-- `AsyncWriteExt::write_all`: the bytes that arrive until the stream ends, and the bytes sent so
-- far, with how many more the peer takes before the connection breaks and whether a flush succeeds.
use latticeshield.Prelude.{
  ℕ, true, ◌+◌, ◌-◌, ◌≤◌, ◌≡◌, refl, sym, ap, ◌∙◌, ◌⊎◌, inl, inr, Bool-cases, leb→le, length-take,
  Bool, List, [], ◌∷◌, ◌++◌, append-nil, append_assoc, length, length-append, take, drop,
  take-append, drop-append, leb, le→leb, if◌then◌else◌, Option, none, some, Result, map_err, ok,
  err, arith,
}
use latticeshield.Prelude.Bytes.{Bytes}
use latticeshield.Crypto.Channel.State.{EncryptedChannel}

pub record Writer : Type 0 where
  pub sent : Bytes
  pub room : ℕ
  pub flushes : Bool

-- A channel between its two halves: what every operation of the channel works on.
pub record Link : Type 0 where
  pub channel : EncryptedChannel
  pub input : Bytes
  pub output : Writer

-- A computation over the link that may fail; the link of a failure is kept.
abbrev pub M : Type 0 → Type 0 → Type 0
M E A = Link → Result E A × Link

abbrev pub chain : {E A B : Type 0} → Result E A × Link → (A → M E B) → Result E B × Link
chain (ok a, l) f = f a l
chain (err e, l) f = (err e, l)

infixl 5 ◌>>=◌ ◌>>◌
abbrev pub ◌>>=◌ : {E A B : Type 0} → M E A → (A → M E B) → M E B
◌>>=◌ m f l = chain (m l) f

abbrev pub ◌>>◌ : {E B : Type 0} → M E (Unit {0}) → M E B → M E B
m >> k = m >>= λ _. k

abbrev pub pure : {E A : Type 0} → A → M E A
pure a l = (ok a, l)

abbrev pub fail : {E A : Type 0} → E → M E A
fail e l = (err e, l)

abbrev pub get_channel : {E : Type 0} → M E EncryptedChannel
get_channel l = (ok l.channel, l)

abbrev pub put_channel : {E : Type 0} → EncryptedChannel → M E (Unit {0})
put_channel c l = (ok tt, record l { channel = c })

abbrev pub or_fail : {E A : Type 0} → E → Option A → M E A
or_fail e none = fail e
or_fail e (some a) = pure a

abbrev pub assert : {E : Type 0} → Bool → E → M E (Unit {0})
assert b e = if b then pure tt else fail e

-- A failure of the code, or a panic that ends the task.
pub data Fault (E : Type 0) : Type 0 where
  failed : E → Fault E
  panicked : Fault E

abbrev pub faulting : {E A : Type 0} → M E A → M (Fault E) A
faulting m l = (map_err failed (m l).0, (m l).1)

abbrev pub some_or_panic : {E A : Type 0} → Option A → M (Fault E) A
some_or_panic = or_fail panicked

-- At the end of the stream `read_exact` has taken what there was.
unfoldable pub read_exact : {E : Type 0} → E → ℕ → M E Bytes
read_exact e n l =
    if leb n (length l.input)
    then (ok (take n l.input), record l { input = drop n l.input })
    else (err e, record l { input = [] })

abbrev pub wrote : Bytes → Writer → Writer
wrote bs w = record w { sent = w.sent ++ bs; room = w.room - length bs }

-- When the connection breaks in the middle, a part of the bytes has been sent.
unfoldable pub write_all : {E : Type 0} → E → Bytes → M E (Unit {0})
write_all e bs l =
    if leb (length bs) l.output.room
    then (ok tt, record l { output = wrote bs l.output })
    else (err e, record l { output = wrote (take l.output.room bs) l.output })

abbrev pub fed : Bytes → Link → Link
fed bs l = record l { input = bs }

unfoldable pub flush : {E : Type 0} → E → M E (Unit {0})
flush e l = if l.output.flushes then (ok tt, l) else (err e, l)

pub read_exact-append :
    {E : Type 0} (e : E) (n : ℕ) (xs ys : Bytes) (l : Link)
    → length xs ≡ n
    → read_exact e n (fed (xs ++ ys) l) ≡ (ok xs, fed ys l)
unfolding read_exact
read_exact-append e n xs ys l h = rw (
  le→leb n (length (xs ++ ys)) (omega (arith, length-append xs ys)),
  take-append n xs ys h,
  drop-append n xs ys h,
)

pub write_all_fits :
    {E : Type 0} (e : E) (bs : Bytes) (l : Link)
    → length bs ≤ l.output.room
    → write_all e bs l ≡ (ok tt, record l { output = wrote bs l.output })
unfolding write_all
write_all_fits e bs l h = rw (le→leb _ _ h)

pub wrote-wrote : (bs cs : Bytes) (w : Writer) → wrote cs (wrote bs w) ≡ wrote (bs ++ cs) w
wrote-wrote bs cs w = ground (arith, append_assoc w.sent bs cs, length-append bs cs)

pub wrote-nil : (w : Writer) → wrote [] w ≡ w
wrote-nil w = ground (arith, append-nil w.sent)

-- A write that fits, and what follows it.
pub write_then :
    {E B : Type 0} (e : E) (bs : Bytes) (k : M E B) (l : Link)
    → length bs ≤ l.output.room
    → (write_all e bs >> k) l ≡ k (record l { output = wrote bs l.output })
write_then e bs k l h = rw (write_all_fits e bs l h)

-- A read of bytes that have arrived, and what follows it.
pub read_then :
    {E B : Type 0} (e : E) (n : ℕ) (xs ys : Bytes) (k : Bytes → M E B) (l : Link)
    → length xs ≡ n
    → (read_exact e n >>= k) (fed (xs ++ ys) l) ≡ k xs (fed ys l)
read_then e n xs ys k l h = rw (read_exact-append e n xs ys l h)

-- Pieces written one after the other, and what stands behind them.
abbrev pub joined : List Bytes → Bytes → Bytes
joined [] rest = rest
joined (p ∷ ps) rest = p ++ joined ps rest

pub joined-append : (ps : List Bytes) (rest : Bytes) → joined ps [] ++ rest ≡ joined ps rest
joined-append [] rest = refl
joined-append (p ∷ ps) rest =
    append_assoc p (joined ps []) rest ∙ ap (◌++◌ p) (joined-append ps rest)

pub length-joined :
    (ps : List Bytes) (rest : Bytes) → length (joined ps rest) ≡ length (joined ps []) + length rest
length-joined ps rest = ap length (sym (joined-append ps rest)) ∙ length-append (joined ps []) rest

-- The pieces are followed by a flush.
abbrev pub write_pieces : {E B : Type 0} → E → List Bytes → M E B → M E B
write_pieces e [] k = flush e >> k
write_pieces e (p ∷ ps) k = write_all e p >> write_pieces e ps k

flush-cases : {E : Type 0} (e : E) (l : Link) → (flush e l ≡ (ok tt, l)) ⊎ (flush e l ≡ (err e, l))
unfolding flush
flush-cases e l = elim (Bool-cases l.output.flushes) [ inl h ↦ inl (rw h) | inr h ↦ inr (rw h) ]

flush_then :
    {E B : Type 0} (e : E) (k : M E B) (l : Link) → l.output.flushes ≡ true → (flush e >> k) l ≡ k l
unfolding flush
flush_then e k l h = rw h

pub write_pieces_then :
    {E B : Type 0} (e : E) (ps : List Bytes) (k : M E B) (l : Link)
    → length (joined ps []) ≤ l.output.room
    → l.output.flushes ≡ true
    → write_pieces e ps k l ≡ k (record l { output = wrote (joined ps []) l.output })
write_pieces_then e [] k l h f =
    flush_then e k l f ∙ ap (λ w. k (record l { output = w })) (sym (wrote-nil l.output))
write_pieces_then e (p ∷ ps) k l h f =
    write_then e p (write_pieces e ps k) l (omega (arith, length-append p (joined ps [])))
    ∙ write_pieces_then e ps k (record l { output = wrote p l.output })
        (omega (arith, length-append p (joined ps []))) f
    ∙ ap (λ w. k (record l { output = w })) (wrote-wrote p (joined ps []) l.output)

-- To split on a read.
pub read_exact-cases :
    {E : Type 0} (e : E) (n : ℕ) (l : Link)
    → ((xs : Bytes) × (ys : Bytes) × (length xs ≡ n) × (read_exact e n l ≡ (ok xs, fed ys l)))
      ⊎ (read_exact e n l ≡ (err e, fed [] l))
unfolding read_exact
read_exact-cases e n l = elim (Bool-cases (leb n (length l.input))) [
  | inl h ↦
      inl (take n l.input, drop n l.input, omega (arith, length-take n l.input, leb→le _ _ h), rw h)
  | inr h ↦ inr (rw h)
]

pub write_all-cases :
    {E : Type 0} (e : E) (bs : Bytes) (l : Link)
    → (write_all e bs l ≡ (ok tt, record l { output = wrote bs l.output }))
      ⊎ (write_all e bs l ≡ (err e, record l { output = wrote (take l.output.room bs) l.output }))
unfolding write_all
write_all-cases e bs l = elim (Bool-cases (leb (length bs) l.output.room)) [
  | inl h ↦ inl (rw h)
  | inr h ↦ inr (rw h)
]

-- Pieces are written to the end or break off, and touch nothing but the output.
pub write_pieces-cases :
    {E B : Type 0} (e : E) (ps : List Bytes) (k : M E B) (l : Link)
    → (w : Writer) × ((write_pieces e ps k l ≡ k (record l { output = w }))
        ⊎ (write_pieces e ps k l ≡ (err e, record l { output = w })))
write_pieces-cases e [] k l = elim (flush-cases e l) [
  | inl f ↦ (l.output, inl (rw f))
  | inr f ↦ (l.output, inr (rw f))
]
write_pieces-cases e (p ∷ ps) k l = elim (write_all-cases e p l) [
  | inl h ↦ rw h (write_pieces-cases e ps k (record l { output = wrote p l.output }))
  | inr h ↦ (wrote (take l.output.room p) l.output, inr (rw h))
]

-- Where all pieces were written, the output holds them and nothing else has changed.
pub write_pieces_ok :
    {E : Type 0} (e : E) (ps : List Bytes) (c : EncryptedChannel) (l m : Link)
    → write_pieces e ps (put_channel c) l ≡ (ok tt, m)
    → m ≡ record l { channel = c; output = wrote (joined ps []) l.output }
write_pieces_ok e [] c l m h = elim (flush-cases e l) [
  | inl f ↦
      sym (ap (λ r. r.1) (rw f at h))
      ∙ ap (λ o. record l { channel = c; output = o }) (sym (wrote-nil l.output))
  | inr f ↦ cc (rw f at h)
]
write_pieces_ok e (p ∷ ps) c l m h = elim (write_all-cases e p l) [
  | inl w ↦
      write_pieces_ok e ps c (record l { output = wrote p l.output }) m (rw w at h)
      ∙ ap (λ o. record l { channel = c; output = o }) (wrote-wrote p (joined ps []) l.output)
  | inr w ↦ cc (rw w at h)
]
