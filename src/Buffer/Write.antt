-- ===== src/Buffer/Write.antt =====
-- What the writes of components/libbuffer/buffer.c do, as the bytes that they add at the cursor.
use snapclient.Base.{
  ℕ, suc, ◌+◌, ◌^◌, ◌≤◌, ◌<◌, ◌≡◌, refl, ◌∙◌, ◌⊎◌, inl, inr, List, [], ◌∷◌, ◌++◌, arith, length,
  length-append, length-set, drop, take, take-append-drop, take-set, drop-set, drop-at, drop-suc,
  get_or, length-take, zero,
}
use mathlib.Core.List.{append_assoc}
use native.Mathlib.Decide.{dec_le}
use native.Mathlib.Nat.{add-zero}
use snapclient.Base.Bytes.{le_bytes}
use snapclient.Base.Codes.{Step, ◌|=◌, done, |=-succeeds}
use snapclient.Buffer.{
  WriteBuffer, put_byte, write_loop, buffer_write_buffer, buffer_write_uint32, buffer_write_uint16,
  buffer_write_uint8, buffer_write_int32, buffer_write_int16, buffer_write_int8,
}

-- The cursor is in the buffer, and the buffer in its memory.
pub record IsValid (b : WriteBuffer) : Type 0 where
  pub within : b.index ≤ b.size
  pub backed : b.size ≤ length b.buffer
  pub fits : b.size < 2 ^ 32

-- The specification: the bytes stand at the cursor, one after the other.
unfoldable pub put : WriteBuffer → List ℕ → WriteBuffer
put b [] = b
put b (v ∷ vs) = put (put_byte b v) vs

-- A step that adds `bs` if there is room for all of them, and otherwise answers 1.
pub record Writes (s : Step WriteBuffer) (bs : List ℕ) : Type 0 where
  pub enough : (b : WriteBuffer) → IsValid b → b.index + length bs ≤ b.size → s b ≡ (0, put b bs)
  pub short :
      (b : WriteBuffer) → IsValid b → b.size < b.index + length bs → ((s b).0 ≡ 1) × IsValid (s b).1

put-append : (b : WriteBuffer) (xs ys : List ℕ) → put b (xs ++ ys) ≡ put (put b xs) ys
unfolding put
put-append b [] ys = refl
put-append b (x ∷ xs) ys = put-append (put_byte b x) xs ys

pub record Moved (n : ℕ) (b c : WriteBuffer) : Type 0 where
  pub valid : IsValid c
  pub cursor : c.index ≡ b.index + n
  pub same : c.size ≡ b.size

put_byte-Moved : (b : WriteBuffer) (v : ℕ) → IsValid b → b.index < b.size → Moved 1 b (put_byte b v)
put_byte-Moved b v h lt = omega (arith, length-set {0} b.buffer b.index v)

pub put-Moved :
    (b : WriteBuffer) (bs : List ℕ)
    → IsValid b
    → b.index + length bs ≤ b.size
    → Moved (length bs) b (put b bs)
unfolding put
put-Moved b [] h le = omega arith
put-Moved b (v ∷ vs) h le =
    let step = put_byte-Moved b v h (omega arith) in
    let rest = put-Moved (put_byte b v) vs step.valid (omega (arith, step)) in
    omega (arith, step, rest)

-- Such a step answers 0 or 1 on every valid buffer, and leaves it valid.
outcome :
    {t : Step WriteBuffer} (ys : List ℕ)
    → Writes t ys
    → (b : WriteBuffer) → IsValid b
    → (((t b).0 ≡ 0) ⊎ ((t b).0 ≡ 1)) × IsValid (t b).1
outcome ys w b h = elim (dec_le (b.index + length ys) b.size) [
  | yes p ↦ rw (w.enough b h p) (inl refl, (put-Moved b ys h p).valid)
  | no p ↦ let q = w.short b h (omega arith) in (inr q.0, q.1)
]

-- Two steps joined by `result |=` write the bytes of both, or answer 1.
pub Writes-then :
    {s t : Step WriteBuffer} (xs ys : List ℕ)
    → Writes s xs
    → Writes t ys
    → Writes (s |= t) (xs ++ ys)
Writes-then {s} {t} xs ys hs ht = record {
  enough = λ b v le. then_enough b v (omega (arith, length-append xs ys));
  short = λ b v lt. then_short b v (omega (arith, length-append xs ys));
}
  where
    then_enough :
        (b : WriteBuffer)
        → IsValid b
        → b.index + length xs + length ys ≤ b.size
        → (s |= t) b ≡ (0, put b (xs ++ ys))
    then_enough b v le =
        let m = put-Moved b xs v (omega arith) in
        rw put-append (
          |=-succeeds s t (hs.enough b v (omega arith))
            (ht.enough (put b xs) m.valid (omega (arith, m))))

    then_short :
        (b : WriteBuffer)
        → IsValid b
        → b.size < b.index + length xs + length ys
        → (((s |= t) b).0 ≡ 1) × IsValid ((s |= t) b).1
    then_short b v lt = elim (dec_le (b.index + length xs) b.size) [
      | yes p ↦
          let m = put-Moved b xs v p in
          let q = ht.short (put b xs) m.valid (omega (arith, m)) in
          rw (hs.enough b v p) (rw q.0, q.1)
      | no p ↦
          let q = hs.short b v (omega arith) in
          let r = outcome ys ht (s b).1 q.1 in (ground (arith, q, r.0), r.1)
    ]

pub Writes-done : Writes done []
unfolding put
Writes-done = record { enough = λ b v le. refl; short = λ b v lt. absurd (omega (arith, v)) }

-- Each integer goes out as its bytes, the lowest first.
module _ (v : ℕ) where
  pub uint32-Writes : Writes (λ b. buffer_write_uint32 b v) (le_bytes 4 v)
  unfolding buffer_write_uint32 put
  uint32-Writes = record {
    enough = λ b h le. ground arith;
    short = λ b h lt. (ground arith, ground arith);
  }

  pub int32-Writes : Writes (λ b. buffer_write_int32 b v) (le_bytes 4 v)
  unfolding buffer_write_int32 put
  int32-Writes = record {
    enough = λ b h le. ground arith;
    short = λ b h lt. (ground arith, ground arith);
  }

  pub uint16-Writes : Writes (λ b. buffer_write_uint16 b v) (le_bytes 2 v)
  unfolding buffer_write_uint16 put
  uint16-Writes = record {
    enough = λ b h le. ground arith;
    short = λ b h lt. (ground arith, ground arith);
  }

  pub int16-Writes : Writes (λ b. buffer_write_int16 b v) (le_bytes 2 v)
  unfolding buffer_write_int16 put
  int16-Writes = record {
    enough = λ b h le. ground arith;
    short = λ b h lt. (ground arith, ground arith);
  }

  pub uint8-Writes : Writes (λ b. buffer_write_uint8 b v) (le_bytes 1 v)
  unfolding buffer_write_uint8 put
  uint8-Writes = record {
    enough = λ b h le. ground arith;
    short = λ b h lt. (ground arith, ground arith);
  }

  pub int8-Writes : Writes (λ b. buffer_write_int8 b v) (le_bytes 1 v)
  unfolding buffer_write_int8 put
  int8-Writes = record {
    enough = λ b h le. ground arith;
    short = λ b h lt. (ground arith, ground arith);
  }

-- The memory behind `put`: the bytes stand where the cursor was, and the rest is as it was.
pub put_memory :
    (b : WriteBuffer) (bs : List ℕ)
    → IsValid b
    → b.index + length bs ≤ b.size
    → (put b bs).buffer ≡ take b.index b.buffer ++ (bs ++ drop (b.index + length bs) b.buffer)
unfolding put
put_memory b [] h le = rw (add-zero, take-append-drop)
put_memory b (v ∷ vs) h le =
    let step = put_byte-Moved b v h (omega arith) in
    let at : (put_byte b v).index ≡ suc b.index = omega (arith, step) in
    let j : suc b.index + length vs ≡ b.index + suc (length vs) = omega arith in
    put_memory (put_byte b v) vs step.valid (omega (arith, step))
    ∙ rw (
      at,
      j,
      take-set b.buffer b.index v (omega arith),
      drop-set b.buffer b.index (b.index + suc (length vs)) v (omega arith),
      append_assoc,
    )

-- The copy loop writes the `rounds` elements of `src` from `i` on.
write_loop-put :
    (rounds i : ℕ) (b : WriteBuffer) (src : List ℕ)
    → i + rounds ≤ length src
    → write_loop rounds i b src ≡ put b (take rounds (drop i src))
unfolding write_loop put
write_loop-put zero i b src h = refl
write_loop-put (suc r) i b src h =
    let (t, e) = drop-at src i 0 (omega arith) in
    let next : i + 1 ≡ suc i = omega arith in
    write_loop-put r (i + 1) (put_byte b (get_or src i 0)) src (omega arith)
    ∙ rw (next, drop-suc src i e, e)

pub buffer-Writes :
    (src : List ℕ) (size : ℕ)
    → size ≤ length src
    → Writes (λ b. buffer_write_buffer b src size) (take size src)
unfolding buffer_write_buffer
buffer-Writes src size h = record {
  enough =
      λ b v le. ground (arith, write_loop-put size 0 b src (omega arith), length-take size src);
  short = λ b v lt. (ground (arith, length-take size src), ground (arith, length-take size src));
}
