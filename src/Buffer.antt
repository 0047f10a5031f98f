-- ===== src/Buffer.antt =====
-- components/libbuffer/buffer.c: reading and writing little-endian integers in a byte buffer with a
-- cursor. Memory is a list of bytes; an int8_t, int16_t or int32_t is its bit pattern. A `size_t`
-- has 32 bits on the target.
pub mod Write
pub mod Read
pub mod RoundTrip
use snapclient.Base.{ℕ, zero, suc, ◌+◌, ◌-◌, ◌/◌, ◌%◌, ◌^◌, List, ltb, if◌then◌else◌, get_or, set}
use snapclient.Base.Bytes.{join_two, join_four}

pub record ReadBuffer : Type 0 where
  pub buffer : List ℕ
  pub size : ℕ
  pub index : ℕ

pub record WriteBuffer : Type 0 where
  pub buffer : List ℕ
  pub size : ℕ
  pub index : ℕ

unfoldable pub buffer_read_init : List ℕ → ℕ → ReadBuffer
buffer_read_init memory size = record { buffer = memory; size = size; index = 0 }

unfoldable pub buffer_write_init : List ℕ → ℕ → WriteBuffer
buffer_write_init memory size = record { buffer = memory; size = size; index = 0 }

-- `buffer->size - buffer->index`, in a `size_t`.
abbrev pub room : ℕ → ℕ → ℕ
room size index = (size + 2 ^ 32 - index) % 2 ^ 32

-- `buffer->buffer[buffer->index++]`, read and written.
abbrev pub next_byte : ReadBuffer → ℕ × ReadBuffer
next_byte b = (get_or b.buffer b.index 0, record b { index = (b.index + 1) % 2 ^ 32 })

abbrev pub put_byte : WriteBuffer → ℕ → WriteBuffer
put_byte b v = record b { buffer = set b.buffer b.index v; index = (b.index + 1) % 2 ^ 32 }

-- The copy loops: `rounds` are left, and `i` is the index into `data`.
pub read_loop : ℕ → ℕ → ReadBuffer → List ℕ → ReadBuffer × List ℕ
read_loop zero i b out = (b, out)
read_loop (suc rounds) i b out =
    let (v, b') = next_byte b in read_loop rounds (i + 1) b' (set out i v)

pub write_loop : ℕ → ℕ → WriteBuffer → List ℕ → WriteBuffer
write_loop zero i b src = b
write_loop (suc rounds) i b src = write_loop rounds (i + 1) (put_byte b (get_or src i 0)) src

-- A read returns its code, what `*data` holds after it, and the buffer.
pub buffer_read_buffer : ReadBuffer → List ℕ → ℕ → ℕ × List ℕ × ReadBuffer
unfolding read_loop
buffer_read_buffer b out size =
    if ltb (room b.size b.index) size
    then (1, out, b)
    else let (b', out') = read_loop size 0 b out in (0, out', b')

pub buffer_write_buffer : WriteBuffer → List ℕ → ℕ → ℕ × WriteBuffer
unfolding write_loop
buffer_write_buffer b src size =
    if ltb (room b.size b.index) size then (1, b) else (0, write_loop size 0 b src)

unfoldable pub buffer_read_uint32 : ReadBuffer → ℕ → ℕ × ℕ × ReadBuffer
buffer_read_uint32 b old =
    if ltb (room b.size b.index) 4
    then (1, old, b)
    else let (v0, b1) = next_byte b in
      let (v1, b2) = next_byte b1 in
      let (v2, b3) = next_byte b2 in let (v3, b4) = next_byte b3 in (0, join_four v0 v1 v2 v3, b4)

unfoldable pub buffer_write_uint32 : WriteBuffer → ℕ → ℕ × WriteBuffer
buffer_write_uint32 b v =
    if ltb (room b.size b.index) 4
    then (1, b)
    else let b1 = put_byte b (v % 256) in
      let b2 = put_byte b1 (v / 2 ^ 8 % 256) in
      let b3 = put_byte b2 (v / 2 ^ 16 % 256) in let b4 = put_byte b3 (v / 2 ^ 24 % 256) in (0, b4)

unfoldable pub buffer_read_uint16 : ReadBuffer → ℕ → ℕ × ℕ × ReadBuffer
buffer_read_uint16 b old =
    if ltb (room b.size b.index) 2
    then (1, old, b)
    else let (v0, b1) = next_byte b in let (v1, b2) = next_byte b1 in (0, join_two v0 v1, b2)

unfoldable pub buffer_write_uint16 : WriteBuffer → ℕ → ℕ × WriteBuffer
buffer_write_uint16 b v =
    if ltb (room b.size b.index) 2
    then (1, b)
    else let b1 = put_byte b (v % 256) in let b2 = put_byte b1 (v / 2 ^ 8 % 256) in (0, b2)

unfoldable pub buffer_read_uint8 : ReadBuffer → ℕ → ℕ × ℕ × ReadBuffer
buffer_read_uint8 b old =
    if ltb (room b.size b.index) 1
    then (1, old, b)
    else let (v0, b1) = next_byte b in (0, v0 % 256, b1)

unfoldable pub buffer_write_uint8 : WriteBuffer → ℕ → ℕ × WriteBuffer
buffer_write_uint8 b v = if ltb (room b.size b.index) 1 then (1, b) else (0, put_byte b (v % 256))

unfoldable pub buffer_read_int32 : ReadBuffer → ℕ → ℕ × ℕ × ReadBuffer
buffer_read_int32 b old =
    if ltb (room b.size b.index) 4
    then (1, old, b)
    else let (v0, b1) = next_byte b in
      let (v1, b2) = next_byte b1 in
      let (v2, b3) = next_byte b2 in let (v3, b4) = next_byte b3 in (0, join_four v0 v1 v2 v3, b4)

unfoldable pub buffer_write_int32 : WriteBuffer → ℕ → ℕ × WriteBuffer
buffer_write_int32 b v =
    if ltb (room b.size b.index) 4
    then (1, b)
    else let b1 = put_byte b (v % 256) in
      let b2 = put_byte b1 (v / 2 ^ 8 % 256) in
      let b3 = put_byte b2 (v / 2 ^ 16 % 256) in let b4 = put_byte b3 (v / 2 ^ 24 % 256) in (0, b4)

unfoldable pub buffer_read_int16 : ReadBuffer → ℕ → ℕ × ℕ × ReadBuffer
buffer_read_int16 b old =
    if ltb (room b.size b.index) 2
    then (1, old, b)
    else let (v0, b1) = next_byte b in let (v1, b2) = next_byte b1 in (0, join_two v0 v1, b2)

unfoldable pub buffer_write_int16 : WriteBuffer → ℕ → ℕ × WriteBuffer
buffer_write_int16 b v =
    if ltb (room b.size b.index) 2
    then (1, b)
    else let b1 = put_byte b (v % 256) in let b2 = put_byte b1 (v / 2 ^ 8 % 256) in (0, b2)

-- `*data = x & 0xff` into an int8_t keeps the bit pattern.
unfoldable pub buffer_read_int8 : ReadBuffer → ℕ → ℕ × ℕ × ReadBuffer
buffer_read_int8 b old =
    if ltb (room b.size b.index) 1
    then (1, old, b)
    else let (v0, b1) = next_byte b in (0, v0 % 256, b1)

unfoldable pub buffer_write_int8 : WriteBuffer → ℕ → ℕ × WriteBuffer
buffer_write_int8 b v = if ltb (room b.size b.index) 1 then (1, b) else (0, put_byte b (v % 256))
