-- ===== src/Message/Deserialize.antt =====
-- Reading the messages of components/lightsnapcast/snapcast.c back from their bytes.
use snapclient.Base.{
  ℕ, ◌+◌, ◌^◌, ◌≤◌, ◌<◌, ◌≡◌, refl, List, ◌++◌, arith, length, drop, some, inl, inr, length-drop,
}
use snapclient.Base.Bytes.{le_bytes}
use snapclient.Buffer.{
  ReadBuffer, buffer_read_init, buffer_read_uint16, buffer_read_uint32, buffer_read_int32,
}
use snapclient.Buffer.Read.{Reads, uint32-Reads, int32-Reads, uint16-Reads}
use snapclient.Message.{
  Tv, BaseMessage, TimeMessage, WireChunkMessage, base_message_serialize, base_message_deserialize,
  time_message_serialize, time_message_deserialize, wire_chunk_message_deserialize,
  base_message_size, time_message_size,
}
use snapclient.Message.Wire.{
  tv_bytes, base_message_bytes, time_message_bytes, IsTv, IsBaseMessage, base_message_serialize_lem,
  time_message_serialize_lem,
}

-- Reading fields one by one from a memory that begins with `bs`.
module _ (bs rest : List ℕ) (size : ℕ) where
  abbrev at : ℕ → ReadBuffer
  at i = record { buffer = bs ++ rest; size = size; index = i }

  read_at :
      (n : ℕ) (rd : ReadBuffer → ℕ → ℕ × ℕ × ReadBuffer) (i old v : ℕ) (more : List ℕ)
      → Reads n rd
      → size ≤ length (bs ++ rest)
      → size < 2 ^ 32
      → i + n ≤ size
      → v < 256 ^ n
      → drop i (bs ++ rest) ≡ le_bytes n v ++ more
      → rd (at i) old ≡ (0, v, at (i + n))
  read_at n rd i old v more r backed fits le small e =
      r.enough (at i) old v more (record { within = omega arith; backed = backed; fits = fits }) le
        small e

module _ (m old : BaseMessage) (rest : List ℕ) (size : ℕ) where
  -- From its bytes, a header is read back whole, whatever the message held before.
  pub base_message_deserialize_lem :
      IsBaseMessage m
      → base_message_size ≤ size
      → size ≤ base_message_size + length rest
      → size < 2 ^ 32
      → base_message_deserialize old (base_message_bytes m ++ rest) size ≡ (0, m)
  unfolding base_message_deserialize buffer_read_init
  base_message_deserialize_lem v le h k = rw (
    read_at bs rest size 2 buffer_read_uint16 0 old.type m.type _ uint16-Reads (omega arith) k
        (omega arith) v.type refl,
    read_at bs rest size 2 buffer_read_uint16 2 old.id m.id _ uint16-Reads (omega arith) k
        (omega arith) v.id refl,
    read_at bs rest size 2 buffer_read_uint16 4 old.refers_to m.refers_to _ uint16-Reads
        (omega arith) k (omega arith) v.refers_to refl,
    read_at bs rest size 4 buffer_read_int32 6 old.sent.sec m.sent.sec _ int32-Reads (omega arith) k
        (omega arith) v.sent.0 refl,
    read_at bs rest size 4 buffer_read_int32 10 old.sent.usec m.sent.usec _ int32-Reads
        (omega arith) k (omega arith) v.sent.1 refl,
    read_at bs rest size 4 buffer_read_int32 14 old.received.sec m.received.sec _ int32-Reads
        (omega arith) k (omega arith) v.received.0 refl,
    read_at bs rest size 4 buffer_read_int32 18 old.received.usec m.received.usec _ int32-Reads
        (omega arith) k (omega arith) v.received.1 refl,
    read_at bs rest size 4 buffer_read_uint32 22 old.size m.size _ uint32-Reads (omega arith) k
        (omega arith) v.size refl,
  )
    where
      bs : List ℕ
      bs = base_message_bytes m

module _ (m old : TimeMessage) (rest : List ℕ) (size : ℕ) where
  pub time_message_deserialize_lem :
      IsTv m.latency
      → time_message_size ≤ size
      → size ≤ time_message_size + length rest
      → size < 2 ^ 32
      → time_message_deserialize old (time_message_bytes m ++ rest) size ≡ (0, m)
  unfolding time_message_deserialize buffer_read_init
  time_message_deserialize_lem v le h k = rw (
    read_at (time_message_bytes m) rest size 4 buffer_read_int32 0 old.latency.sec m.latency.sec _
        int32-Reads (omega arith) k (omega arith) v.0 refl,
    read_at (time_message_bytes m) rest size 4 buffer_read_int32 4 old.latency.usec m.latency.usec _
        int32-Reads (omega arith) k (omega arith) v.1 refl,
  )

-- A header that is serialised into a buffer with room for it is deserialised to the same header,
-- from that buffer, whatever the target held; both answer 0.
pub base_message_deserialize-serialize :
    (m old : BaseMessage) (memory : List ℕ) (size : ℕ)
    → IsBaseMessage m
    → base_message_size ≤ size
    → size ≤ length memory
    → size < 2 ^ 32
    → let (result, written) = base_message_serialize m memory size in
      (result ≡ 0) × (base_message_deserialize old written size ≡ (0, m))
base_message_deserialize-serialize m old memory size v le h k =
    elim (base_message_serialize_lem m memory size h k) [
      | inl (_, e) ↦ rw e (
        refl,
        base_message_deserialize_lem m old (drop base_message_size memory) size v le
            (omega (arith, length-drop base_message_size memory)) k,
      )
      | inr (lt, _) ↦ absurd (omega arith)
    ]

-- The same for the message that measures the time.
pub time_message_deserialize-serialize :
    (m old : TimeMessage) (memory : List ℕ) (size : ℕ)
    → IsTv m.latency
    → time_message_size ≤ size
    → size ≤ length memory
    → size < 2 ^ 32
    → let (result, written) = time_message_serialize m memory size in
      (result ≡ 0) × (time_message_deserialize old written size ≡ (0, m))
time_message_deserialize-serialize m old memory size v le h k =
    rw (time_message_serialize_lem m memory size le h k) (
      refl,
      time_message_deserialize_lem m old (drop time_message_size memory) size v le
          (omega (arith, length-drop time_message_size memory)) k,
    )

-- The fixed part of a chunk: its time stamp and the size of its payload.
abbrev pub wire_chunk_bytes : Tv → ℕ → List ℕ
wire_chunk_bytes t n = tv_bytes t ++ le_bytes 4 n

-- From the bytes of a chunk, its time stamp and size are read, and the payload is found behind them.
pub wire_chunk_message_deserialize_lem :
    (t : Tv) (n : ℕ) (old : WireChunkMessage) (rest : List ℕ) (size : ℕ)
    → IsTv t
    → n < 2 ^ 32
    → 12 ≤ size
    → size ≤ 12 + length rest
    → size < 2 ^ 32
    → wire_chunk_message_deserialize old (wire_chunk_bytes t n ++ rest) size
      ≡ (0, record { timestamp = t; size = n; payload = some 12 })
unfolding wire_chunk_message_deserialize buffer_read_init
wire_chunk_message_deserialize_lem t n old rest size v small le h k = rw (
  read_at (wire_chunk_bytes t n) rest size 4 buffer_read_int32 0 old.timestamp.sec t.sec _
      int32-Reads (omega arith) k (omega arith) v.0 refl,
  read_at (wire_chunk_bytes t n) rest size 4 buffer_read_int32 4 old.timestamp.usec t.usec _
      int32-Reads (omega arith) k (omega arith) v.1 refl,
  read_at (wire_chunk_bytes t n) rest size 4 buffer_read_uint32 8 old.size n _ uint32-Reads
      (omega arith) k (omega arith) small refl,
)
