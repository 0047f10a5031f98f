-- ===== src/Buffer/RoundTrip.antt =====
-- Reading back what was written, for every integer of components/libbuffer/buffer.c and for blocks.
use snapclient.Base.{
  ℕ, zero, suc, ◌+◌, ◌^◌, ◌≤◌, ◌<◌, ◌≡◌, refl, ap, ◌∙◌, List, [], ◌∷◌, ◌++◌, arith, length, drop,
  take,
}
use snapclient.Base.Bytes.{le_bytes, length-le_bytes}
use snapclient.Buffer.{
  ReadBuffer, WriteBuffer, buffer_read_buffer, buffer_write_buffer, buffer_read_uint32,
  buffer_read_uint16, buffer_read_uint8, buffer_read_int32, buffer_read_int16, buffer_read_int8,
  buffer_write_uint32, buffer_write_uint16, buffer_write_uint8, buffer_write_int32,
  buffer_write_int16, buffer_write_int8,
}
use mathlib.Core.List.{append-nil}
use snapclient.Buffer.Write.{
  IsValid, put, Writes, uint32-Writes, int32-Writes, uint16-Writes, int16-Writes, uint8-Writes,
  int8-Writes, put_memory, buffer-Writes, put-Moved,
}
use snapclient.Buffer.Read.{
  IsReadable, advance, Reads, uint32-Reads, int32-Reads, uint16-Reads, int16-Reads, uint8-Reads,
  int8-Reads, buffer_read_buffer_lem,
}

-- The integer types of the two families of functions.
pub data Width : Type 0 where
  uint8 int8 uint16 int16 uint32 int32 : Width

abbrev pub bytes : Width → ℕ
bytes uint8 = 1
bytes int8 = 1
bytes uint16 = 2
bytes int16 = 2
bytes uint32 = 4
bytes int32 = 4

abbrev pub write_integer : Width → WriteBuffer → ℕ → ℕ × WriteBuffer
write_integer uint8 = buffer_write_uint8
write_integer int8 = buffer_write_int8
write_integer uint16 = buffer_write_uint16
write_integer int16 = buffer_write_int16
write_integer uint32 = buffer_write_uint32
write_integer int32 = buffer_write_int32

abbrev pub read_integer : Width → ReadBuffer → ℕ → ℕ × ℕ × ReadBuffer
read_integer uint8 = buffer_read_uint8
read_integer int8 = buffer_read_int8
read_integer uint16 = buffer_read_uint16
read_integer int16 = buffer_read_int16
read_integer uint32 = buffer_read_uint32
read_integer int32 = buffer_read_int32

write_integer-Writes :
    (w : Width) (v : ℕ) → Writes (λ b. write_integer w b v) (le_bytes (bytes w) v)
write_integer-Writes uint8 v = uint8-Writes v
write_integer-Writes int8 v = int8-Writes v
write_integer-Writes uint16 v = uint16-Writes v
write_integer-Writes int16 v = int16-Writes v
write_integer-Writes uint32 v = uint32-Writes v
write_integer-Writes int32 v = int32-Writes v

read_integer-Reads : (w : Width) → Reads (bytes w) (read_integer w)
read_integer-Reads uint8 = uint8-Reads
read_integer-Reads int8 = int8-Reads
read_integer-Reads uint16 = uint16-Reads
read_integer-Reads int16 = int16-Reads
read_integer-Reads uint32 = uint32-Reads
read_integer-Reads int32 = int32-Reads

-- The memory of a write buffer, to be read from where the write began.
abbrev pub reread : WriteBuffer → WriteBuffer → ReadBuffer
reread b c = record { buffer = c.buffer; size = b.size; index = b.index }

drop-take : (n : ℕ) (xs ys : List ℕ) → n ≤ length xs → drop n (take n xs ++ ys) ≡ ys
drop-take zero xs ys h = refl
drop-take (suc n) [] ys h = absurd (omega arith)
drop-take (suc n) (x ∷ xs) ys h = drop-take n xs ys (omega arith)

-- After `put` the bytes stand at the old cursor, in a memory as long as before.
put-drop :
    (b : WriteBuffer) (bs : List ℕ)
    → IsValid b
    → b.index + length bs ≤ b.size
    → drop b.index (put b bs).buffer ≡ bs ++ drop (b.index + length bs) b.buffer
put-drop b bs v le = rw (put_memory b bs v le) (drop-take b.index b.buffer _ (omega arith))

reread-IsReadable :
    (b : WriteBuffer) (bs : List ℕ)
    → IsValid b
    → b.index + length bs ≤ b.size
    → IsReadable (reread b (put b bs))
reread-IsReadable b bs v le = omega (arith, put-Moved b bs v le)

-- Every integer that fits its type is written with code 0 where there is room for its bytes, and the
-- matching read at the place of the write gives it back, with code 0, and moves past it.
pub read_integer-write_integer :
    (w : Width) (b : WriteBuffer) (v old : ℕ)
    → IsValid b
    → b.index + bytes w ≤ b.size
    → v < 256 ^ bytes w
    → let (code, c) = write_integer w b v in
      let r = reread b c in
      (code ≡ 0)
      × (c.index ≡ b.index + bytes w)
      × (read_integer w r old ≡ (0, v, advance r (bytes w)))
read_integer-write_integer w b v old h le small =
    let bs = le_bytes (bytes w) v in
    let n : b.index + length bs ≤ b.size = omega (arith, length-le_bytes (bytes w) v) in
    let m = put-Moved b bs h n in
    rw ((write_integer-Writes w v).enough b h n) (
      refl,
      omega (arith, m, length-le_bytes (bytes w) v),
      (read_integer-Reads w).enough (reread b (put b bs)) old v
          (drop (b.index + length bs) b.buffer) (reread-IsReadable b bs h n) le small
          (put-drop b bs h n),
    )

-- Where the bytes do not fit, a write answers 1 and leaves the buffer as it was, and a read answers 1
-- and leaves the buffer and the destination as they were.
pub integer_full :
    (w : Width) (b : WriteBuffer) (r : ReadBuffer) (v old : ℕ)
    → IsValid b
    → b.size < b.index + bytes w
    → IsReadable r
    → r.size < r.index + bytes w
    → (write_integer w b v ≡ (1, b)) × (read_integer w r old ≡ (1, old, r))
unfolding buffer_write_uint32 buffer_write_uint16 buffer_write_uint8 buffer_write_int32
    buffer_write_int16 buffer_write_int8
integer_full uint8 b r v old h lt k lt' = (ground arith, uint8-Reads.short r old k lt')
integer_full int8 b r v old h lt k lt' = (ground arith, int8-Reads.short r old k lt')
integer_full uint16 b r v old h lt k lt' = (ground arith, uint16-Reads.short r old k lt')
integer_full int16 b r v old h lt k lt' = (ground arith, int16-Reads.short r old k lt')
integer_full uint32 b r v old h lt k lt' = (ground arith, uint32-Reads.short r old k lt')
integer_full int32 b r v old h lt k lt' = (ground arith, int32-Reads.short r old k lt')

take-append : (n : ℕ) (xs ys : List ℕ) → length xs ≡ n → take n (xs ++ ys) ≡ xs
take-append zero [] ys e = refl
take-append zero (x ∷ xs) ys e = absurd (omega arith)
take-append (suc n) [] ys e = absurd (omega arith)
take-append (suc n) (x ∷ xs) ys e = ap (◌∷◌ x) (take-append n xs ys (omega arith))

-- A block that fits is written with code 0, and a read of as many bytes at the place of the write
-- copies it to the front of the destination, whose other bytes stay.
pub read_buffer-write_buffer :
    (b : WriteBuffer) (src out : List ℕ)
    → IsValid b
    → b.index + length src ≤ b.size
    → length src ≤ length out
    → let (code, c) = buffer_write_buffer b src (length src) in
      let r = reread b c in
      (code ≡ 0)
      × (buffer_read_buffer r out (length src)
          ≡ (0, src ++ drop (length src) out, advance r (length src)))
read_buffer-write_buffer b src out h le fits =
    let n = length src in
    let all : take n src ≡ src = rw append-nil at (take-append n src [] refl) in
    let w = (buffer-Writes src n (omega arith)).enough b h (rw all le) in
    rw (w, all)
      (
        refl,
        buffer_read_buffer_lem (reread b (put b src)) out n (reread-IsReadable b src h le) le fits
            ∙ rw (put-drop b src h le, take-append n src (drop (b.index + n) b.buffer) refl),
      )
