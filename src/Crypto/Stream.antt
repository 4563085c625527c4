-- ===== src/Crypto/Stream.antt =====
-- A connection before it has a channel, as both ends use it in the handshake: the bytes that arrive until
-- the stream ends, and the writing half. A failure ends the connection.
use latticeshield.Prelude.{
  ℕ, true, refl, ap, ◌≤◌, ◌≡◌, ◌++◌, length, length-append, take, drop, take-append, drop-append,
  leb, le→leb, if◌then◌else◌, Option, none, some, arith,
}
use latticeshield.Prelude.Bytes.{Bytes}
use latticeshield.Crypto.Channel.Link.{Writer, wrote}

pub record Stream : Type 0 where
  pub input : Bytes
  pub output : Writer

unfoldable pub read_exact : ℕ → Stream → Option (Bytes × Stream)
read_exact n s =
    if leb n (length s.input)
    then some (take n s.input, record s { input = drop n s.input })
    else none

unfoldable pub write_all : Bytes → Stream → Option Stream
write_all bs s =
    if leb (length bs) s.output.room then some (record s { output = wrote bs s.output }) else none

unfoldable pub flush : Stream → Option Stream
flush s = if s.output.flushes then some s else none

pub read_exact-append :
    (n : ℕ) (xs ys : Bytes) (w : Writer)
    → length xs ≡ n
    → read_exact n (record { input = xs ++ ys; output = w })
      ≡ some (xs, record { input = ys; output = w })
unfolding read_exact
read_exact-append n xs ys w h = rw (
  le→leb n (length (xs ++ ys)) (omega (arith, length-append xs ys)),
  take-append n xs ys h,
  drop-append n xs ys h,
)

pub write_all_fits :
    (bs : Bytes) (s : Stream)
    → length bs ≤ s.output.room
    → write_all bs s ≡ some (record s { output = wrote bs s.output })
unfolding write_all
write_all_fits bs s h = rw (le→leb _ _ h)

pub write_all-some :
    (bs : Bytes) (s t : Stream)
    → write_all bs s ≡ some t
    → record s { output = wrote bs s.output } ≡ t
unfolding write_all
write_all-some bs s t h = ground arith

pub flush_works : (s : Stream) → s.output.flushes ≡ true → flush s ≡ some s
unfolding flush
flush_works s h = rw h refl

pub write_all-input : (bs : Bytes) (s t : Stream) → write_all bs s ≡ some t → s.input ≡ t.input
write_all-input bs s t h = ap (λ u. u.input) (write_all-some bs s t h)

pub flush_same : (s t : Stream) → flush s ≡ some t → s ≡ t
unfolding flush
flush_same s t h = ground arith
