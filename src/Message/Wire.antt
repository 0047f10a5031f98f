-- ===== src/Message/Wire.antt =====
-- The bytes of the messages of components/lightsnapcast/snapcast.c on the wire.
use snapclient.Base.{ℕ, ◌+◌, ◌^◌, ◌≤◌, ◌<◌, ◌≡◌, List, ◌++◌, arith, length, drop, ◌⊎◌, inl, inr}
use native.Mathlib.Decide.{dec_le}
use snapclient.Base.Bytes.{le_bytes}
use snapclient.Base.Codes.{Step, ◌|=◌, done}
use snapclient.Buffer.{
  WriteBuffer, buffer_write_init, buffer_write_uint16, buffer_write_uint32, buffer_write_int32,
}
use snapclient.Buffer.Write.{
  IsValid, Writes, Writes-then, Writes-done, uint32-Writes, int32-Writes, uint16-Writes, put_memory,
}
use snapclient.Message.{
  Tv, BaseMessage, TimeMessage, base_message_serialize, time_message_serialize, base_message_size,
  time_message_size,
}

abbrev pub tv_bytes : Tv → List ℕ
tv_bytes t = le_bytes 4 t.sec ++ le_bytes 4 t.usec

-- The header of a message, in the order of the protocol.
abbrev pub base_message_bytes : BaseMessage → List ℕ
base_message_bytes m =
    le_bytes 2 m.type
    ++ (le_bytes 2 m.id
        ++ (le_bytes 2 m.refers_to
            ++ (tv_bytes m.sent ++ (tv_bytes m.received ++ le_bytes 4 m.size))))

abbrev pub time_message_bytes : TimeMessage → List ℕ
time_message_bytes m = tv_bytes m.latency

-- The fields hold what their C types can.
abbrev pub IsTv : Tv → Type 0
IsTv t = (t.sec < 2 ^ 32) × (t.usec < 2 ^ 32)

pub record IsBaseMessage (m : BaseMessage) : Type 0 where
  pub type : m.type < 2 ^ 16
  pub id : m.id < 2 ^ 16
  pub refers_to : m.refers_to < 2 ^ 16
  pub sent : IsTv m.sent
  pub received : IsTv m.received
  pub size : m.size < 2 ^ 32

-- A step run on a fresh buffer over `memory`.
run_write : Step WriteBuffer → List ℕ → ℕ → ℕ × List ℕ
run_write s memory size = let (result, b) = s (buffer_write_init memory size) in (result, b.buffer)

run_write-enough :
    (s : Step WriteBuffer) (bs memory : List ℕ) (size : ℕ)
    → Writes s bs
    → length bs ≤ size
    → size ≤ length memory
    → size < 2 ^ 32
    → run_write s memory size ≡ (0, bs ++ drop (length bs) memory)
unfolding run_write buffer_write_init
run_write-enough s bs memory size w le h k =
    let b = buffer_write_init memory size in
    let v : IsValid b = omega arith in
    let z : 0 + length bs ≡ length bs = omega arith in
    rw (w.enough b v (omega arith), put_memory b bs v (omega arith), z)

run_write-short :
    (s : Step WriteBuffer) (bs memory : List ℕ) (size : ℕ)
    → Writes s bs
    → size < length bs
    → size ≤ length memory
    → size < 2 ^ 32
    → (run_write s memory size).0 ≡ 1
unfolding run_write buffer_write_init
run_write-short s bs memory size w lt h k =
    let v : IsValid (buffer_write_init memory size) = omega arith in
    (w.short (buffer_write_init memory size) v (omega arith)).0

module _ (m : BaseMessage) where
  base_write : Step WriteBuffer
  base_write =
      done
      |= (λ b. buffer_write_uint16 b m.type)
      |= (λ b. buffer_write_uint16 b m.id)
      |= (λ b. buffer_write_uint16 b m.refers_to)
      |= (λ b. buffer_write_int32 b m.sent.sec)
      |= (λ b. buffer_write_int32 b m.sent.usec)
      |= (λ b. buffer_write_int32 b m.received.sec)
      |= (λ b. buffer_write_int32 b m.received.usec)
      |= (λ b. buffer_write_uint32 b m.size)

  base_write-Writes : Writes base_write (base_message_bytes m)
  unfolding base_write
  base_write-Writes =
      Writes-then _ _
        (Writes-then _ _
          (Writes-then _ _
            (Writes-then _ _
              (Writes-then _ _
                (Writes-then _ _
                  (Writes-then _ _ (Writes-then _ _ Writes-done (uint16-Writes m.type))
                    (uint16-Writes m.id))
                  (uint16-Writes m.refers_to))
                (int32-Writes m.sent.sec))
              (int32-Writes m.sent.usec))
            (int32-Writes m.received.sec))
          (int32-Writes m.received.usec))
        (uint32-Writes m.size)

-- Where the buffer holds a header, serialising answers 0 and replaces the first 26 bytes by those of
-- the protocol; where it does not, it answers 1.
pub base_message_serialize_lem :
    (m : BaseMessage) (memory : List ℕ) (size : ℕ)
    → size ≤ length memory
    → size < 2 ^ 32
    → ((base_message_size ≤ size)
        × (base_message_serialize m memory size
            ≡ (0, base_message_bytes m ++ drop base_message_size memory)))
      ⊎ ((size < base_message_size) × ((base_message_serialize m memory size).0 ≡ 1))
unfolding base_message_serialize base_write run_write
base_message_serialize_lem m memory size h k = elim (dec_le base_message_size size) [
  | yes le ↦ inl (le, run_write-enough (base_write m) _ memory size (base_write-Writes m) le h k)
  | no lt ↦ inr (
    omega arith,
    run_write-short (base_write m) _ memory size (base_write-Writes m) (omega arith) h k,
  )
]

module _ (m : TimeMessage) where
  time_write : Step WriteBuffer
  time_write =
      done
      |= (λ b. buffer_write_int32 b m.latency.sec)
      |= (λ b. buffer_write_int32 b m.latency.usec)

  time_write-Writes : Writes time_write (time_message_bytes m)
  unfolding time_write
  time_write-Writes =
      Writes-then _ _ (Writes-then _ _ Writes-done (int32-Writes m.latency.sec))
        (int32-Writes m.latency.usec)

pub time_message_serialize_lem :
    (m : TimeMessage) (memory : List ℕ) (size : ℕ)
    → time_message_size ≤ size
    → size ≤ length memory
    → size < 2 ^ 32
    → time_message_serialize m memory size
      ≡ (0, time_message_bytes m ++ drop time_message_size memory)
unfolding time_message_serialize time_write run_write
time_message_serialize_lem m memory size le h k =
    run_write-enough (time_write m) _ memory size (time_write-Writes m) le h k
