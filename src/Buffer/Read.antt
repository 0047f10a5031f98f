-- ===== src/Buffer/Read.antt =====
-- What the reads of components/libbuffer/buffer.c do on a buffer that holds the bytes of a value.
use snapclient.Base.{
  ℕ, zero, suc, ◌+◌, ◌%◌, ◌^◌, ◌≤◌, ◌<◌, ◌≡◌, ◌∙◌, List, [], ◌∷◌, ◌++◌, arith, length, set,
  length-set, drop, take, get_or, get_or-drop, drop-suc, take-set, drop-set, take-append-drop,
  drop-at,
}
use snapclient.Base.Bytes.{le_bytes, join_two-le_bytes, join_four-le_bytes}
use mathlib.Core.List.{append_assoc}
use native.Mathlib.Nat.{add-zero}
use native.Mathlib.Numerals.{add-one}
use snapclient.Buffer.{
  ReadBuffer, read_loop, buffer_read_buffer, buffer_read_uint32, buffer_read_uint16,
  buffer_read_uint8, buffer_read_int32, buffer_read_int16, buffer_read_int8,
}

pub record IsReadable (b : ReadBuffer) : Type 0 where
  pub within : b.index ≤ b.size
  pub backed : b.size ≤ length b.buffer
  pub fits : b.size < 2 ^ 32

-- The cursor `n` bytes on.
abbrev pub advance : ReadBuffer → ℕ → ReadBuffer
advance b n = record b { index = b.index + n }

-- The bytes of `bs` stand in `memory` from `i` on.
abbrev pub Stands : List ℕ → ℕ → List ℕ → Type 0
Stands memory i [] = Unit {0}
Stands memory i (v ∷ vs) = (get_or memory i 0 ≡ v) × Stands memory (i + 1) vs

Stands-drop :
    (memory : List ℕ) (i : ℕ) (vs rest : List ℕ) → drop i memory ≡ vs ++ rest → Stands memory i vs
Stands-drop memory i [] rest e = tt
Stands-drop memory i (v ∷ vs) rest e = (
  get_or-drop memory i 0 e,
  Stands-drop memory (i + 1) vs rest (rw add-one (drop-suc memory i e)),
)

-- A read of `n` bytes returns the value that they stand for and moves past them; if fewer are left
-- it answers 1, and changes nothing.
pub record Reads (n : ℕ) (rd : ReadBuffer → ℕ → ℕ × ℕ × ReadBuffer) : Type 0 where
  pub enough :
      (b : ReadBuffer) (old v : ℕ) (rest : List ℕ)
      → IsReadable b
      → b.index + n ≤ b.size
      → v < 256 ^ n
      → drop b.index b.buffer ≡ le_bytes n v ++ rest
      → rd b old ≡ (0, v, advance b n)
  pub short :
      (b : ReadBuffer) (old : ℕ) → IsReadable b → b.size < b.index + n → rd b old ≡ (1, old, b)

pub uint32-Reads : Reads 4 buffer_read_uint32
unfolding buffer_read_uint32
uint32-Reads = record {
  enough = λ b old v rest h le small e.
      let s = Stands-drop b.buffer b.index (le_bytes 4 v) rest e in
      ground (arith, s, join_four-le_bytes v small);
  short = λ b old h lt. ground arith;
}

pub int32-Reads : Reads 4 buffer_read_int32
unfolding buffer_read_int32
int32-Reads = record {
  enough = λ b old v rest h le small e.
      let s = Stands-drop b.buffer b.index (le_bytes 4 v) rest e in
      ground (arith, s, join_four-le_bytes v small);
  short = λ b old h lt. ground arith;
}

pub uint16-Reads : Reads 2 buffer_read_uint16
unfolding buffer_read_uint16
uint16-Reads = record {
  enough = λ b old v rest h le small e.
      let s = Stands-drop b.buffer b.index (le_bytes 2 v) rest e in
      ground (arith, s, join_two-le_bytes v small);
  short = λ b old h lt. ground arith;
}

pub int16-Reads : Reads 2 buffer_read_int16
unfolding buffer_read_int16
int16-Reads = record {
  enough = λ b old v rest h le small e.
      let s = Stands-drop b.buffer b.index (le_bytes 2 v) rest e in
      ground (arith, s, join_two-le_bytes v small);
  short = λ b old h lt. ground arith;
}

pub uint8-Reads : Reads 1 buffer_read_uint8
unfolding buffer_read_uint8
uint8-Reads = record {
  enough = λ b old v rest h le small e.
      let s = Stands-drop b.buffer b.index (le_bytes 1 v) rest e in ground (arith, s);
  short = λ b old h lt. ground arith;
}

pub int8-Reads : Reads 1 buffer_read_int8
unfolding buffer_read_int8
int8-Reads = record {
  enough = λ b old v rest h le small e.
      let s = Stands-drop b.buffer b.index (le_bytes 1 v) rest e in ground (arith, s);
  short = λ b old h lt. ground arith;
}

-- The copy loop fills `out` from `i` on.
read_loop_copies :
    (rounds i : ℕ) (b : ReadBuffer) (out : List ℕ)
    → b.index + rounds < 2 ^ 32
    → b.index + rounds ≤ length b.buffer
    → i + rounds ≤ length out
    → read_loop rounds i b out ≡ (
      advance b rounds,
      take i out ++ (take rounds (drop b.index b.buffer) ++ drop (i + rounds) out),
    )
unfolding read_loop
read_loop_copies zero i b out h k l = simp (add-zero, take-append-drop)
read_loop_copies (suc r) i b out h k l =
    let v = get_or b.buffer b.index 0 in
    let (t, e) = drop-at b.buffer b.index 0 (omega arith) in
    let at : (b.index + 1) % 2 ^ 32 ≡ suc b.index = omega arith in
    let i' : i + 1 ≡ suc i = omega arith in
    let far : suc i + r ≡ i + suc r = omega arith in
    let end : suc b.index + r ≡ b.index + suc r = omega arith in
    rw (at, i')
      (read_loop_copies r (suc i) (record b { index = suc b.index }) (set out i v) (omega arith)
          (omega arith) (omega (arith, length-set {0} out i v))
        ∙ rw (
          e,
          drop-suc b.buffer b.index e,
          take-set out i v (omega arith),
          far,
          end,
          drop-set out i (i + suc r) v (omega arith),
          append_assoc,
        ))

-- A copy out of the buffer fills the first `size` places of `out`, and moves past what it copied.
pub buffer_read_buffer_lem :
    (b : ReadBuffer) (out : List ℕ) (size : ℕ)
    → IsReadable b
    → b.index + size ≤ b.size
    → size ≤ length out
    → buffer_read_buffer b out size
      ≡ (0, take size (drop b.index b.buffer) ++ drop size out, advance b size)
unfolding buffer_read_buffer
buffer_read_buffer_lem b out size v le h =
    let z : 0 + size ≡ size = omega arith in
    ground (arith, read_loop_copies size 0 b out (omega arith) (omega arith) (omega arith), z)
