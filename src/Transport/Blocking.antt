-- ===== src/Transport/Blocking.antt =====
-- transport/socket/IBlockingStream.hpp: a blocking stream as its users see it. How much one call
-- moves comes from outside: `chunks` are the sizes of the reads, `takes` of the writes, and past
-- their end a call moves all that it can. The peer takes what is written. Bytes are numbers below 256.
use task_messenger.Common.{
  ℕ, ◌+◌, ◌*◌, ◌/◌, ◌%◌, ◌^◌, ◌<◌, ◌≡◌, Bool, true, false, not, refl, ap, Option, none, some, List,
  [], ◌∷◌, ◌++◌, arith, ltb, if◌then◌else◌, length, take, drop,
}
use task_messenger.Session.{Errc}

pub record Stream : Type 0 where
  pub incoming : List ℕ
  pub chunks : List ℕ
  -- Whether the connection ends once nothing is left. Where it stays open, a read then waits for
  -- more, until another thread shuts the socket down.
  pub ends : Bool
  -- What a read says when the connection has ended, and a write from now on.
  pub read_fault : Option Errc
  pub write_fault : Option Errc
  pub outgoing : List ℕ
  pub takes : List ℕ
  pub is_open : Bool

abbrev pub limit : List ℕ → ℕ → ℕ
limit [] n = n
limit (c ∷ cs) n = if ltb c n then c else n

abbrev pub rest_of : List ℕ → List ℕ
rest_of [] = []
rest_of (c ∷ cs) = cs

abbrev pub is_waiting : Stream → Bool
is_waiting s = elim s.incoming [ [] ↦ not s.ends | b ∷ bs ↦ false ]

-- `read(buf, size, bytes_read, ec)` where it does not wait: the bytes, and the error.
abbrev pub read_some : ℕ → Stream → (List ℕ × Option Errc) × Stream
read_some size s = elim s.incoming [
  | [] ↦ (([], s.read_fault), s)
  | b ∷ bs ↦ (
    (take (limit s.chunks size) (b ∷ bs), none),
    record s { incoming = drop (limit s.chunks size) (b ∷ bs); chunks = rest_of s.chunks },
  )
]

-- `write(buf, size, bytes_written, ec)`: how many bytes, and the error.
abbrev pub write_some : List ℕ → Stream → (ℕ × Option Errc) × Stream
write_some bs s = elim s.write_fault [
  | some e ↦ ((0, some e), s)
  | none ↦ (
    (limit s.takes (length bs), none),
    record s {
      outgoing = s.outgoing ++ take (limit s.takes (length bs)) bs;
      takes = rest_of s.takes;
    },
  )
]

-- A little-endian uint32_t.
abbrev pub le32 : ℕ → List ℕ
le32 n = n % 256 ∷ (n / 256) % 256 ∷ (n / 65536) % 256 ∷ (n / 16777216) % 256 ∷ []

abbrev pub from_le32 : ℕ → ℕ → ℕ → ℕ → ℕ
from_le32 a b c d = a + b * 256 + c * 65536 + d * 16777216

pub from_le32-le32 :
    (n : ℕ)
    → n < 2 ^ 32
    → from_le32 (n % 256) ((n / 256) % 256) ((n / 65536) % 256) ((n / 16777216) % 256) ≡ n
from_le32-le32 n h = omega arith

pub read_some-ends : (n : ℕ) (s : Stream) → (read_some n s).1.ends ≡ s.ends
read_some-ends n s =
    elim s.incoming as (λ bs. (read_some n (record s { incoming = bs })).1.ends ≡ s.ends) [
      | [] ↦ refl
      | b ∷ bs ↦ refl
    ]

-- A connection that ends keeps no read waiting.
pub is_waiting_ends : (s : Stream) → s.ends ≡ true → is_waiting s ≡ false
is_waiting_ends s h = elim s.incoming as (λ bs. is_waiting (record s { incoming = bs }) ≡ false) [
  | [] ↦ ap not h
  | b ∷ bs ↦ refl
]
