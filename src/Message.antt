-- ===== src/Message.antt =====
-- components/lightsnapcast/snapcast.c and include/snapcast.h: the messages of the protocol, written
-- to and read from a byte buffer. Memory is a list of bytes, an `int` code is a number, and an
-- int32_t field is its bit pattern.
pub mod Wire
pub mod Deserialize
pub mod Settings
pub mod Hello
use snapclient.Base.{ℕ, zero, suc, ◌+◌, ◌*◌, List, drop, ◌%◌, ◌^◌, if◌then◌else◌, set, ◌==◌, ◌&&◌}
use snapclient.Base.{Option, none, some, replicate, Bool, true, false}
use snapclient.Base.Codes.{Step, ◌|=◌, done}
use snapclient.Buffer.{
  ReadBuffer, WriteBuffer, buffer_read_init, buffer_write_init, buffer_write_uint16,
  buffer_write_uint32, buffer_write_int32, buffer_read_uint16, buffer_read_uint32,
  buffer_read_int32, buffer_read_buffer,
}

pub record Tv : Type 0 where
  pub sec : ℕ
  pub usec : ℕ

pub record BaseMessage : Type 0 where
  pub type : ℕ
  pub id : ℕ
  pub refers_to : ℕ
  pub sent : Tv
  pub received : Tv
  pub size : ℕ

pub record TimeMessage : Type 0 where
  pub latency : Tv

-- `payload` is the index in the message's bytes at which the payload begins.
pub record WireChunkMessage : Type 0 where
  pub timestamp : Tv
  pub size : ℕ
  pub payload : Option ℕ

-- `codec` is the string that was allocated, its terminating zero included.
pub record CodecHeaderMessage : Type 0 where
  pub codec : Option (List ℕ)
  pub size : ℕ
  pub payload : Option ℕ

abbrev pub base_message_size : ℕ
base_message_size = 26

abbrev pub time_message_size : ℕ
time_message_size = 8

unfoldable pub base_message_serialize : BaseMessage → List ℕ → ℕ → ℕ × List ℕ
base_message_serialize msg memory size =
    let write : Step WriteBuffer =
      done
      |= (λ b. buffer_write_uint16 b msg.type)
      |= (λ b. buffer_write_uint16 b msg.id)
      |= (λ b. buffer_write_uint16 b msg.refers_to)
      |= (λ b. buffer_write_int32 b msg.sent.sec)
      |= (λ b. buffer_write_int32 b msg.sent.usec)
      |= (λ b. buffer_write_int32 b msg.received.sec)
      |= (λ b. buffer_write_int32 b msg.received.usec)
      |= (λ b. buffer_write_uint32 b msg.size) in
    let (result, b) = write (buffer_write_init memory size) in (result, b.buffer)

-- `result |= read(&buffer, &msg->field)`: the field is passed on as it is, and set to what comes back.
abbrev pub into {ℓ} :
    {M : Type ℓ}
    → (ReadBuffer → ℕ → ℕ × ℕ × ReadBuffer)
    → (M → ℕ)
    → (M → ℕ → M)
    → Step (M × ReadBuffer)
into read field update (m, b) = let (r, v, b') = read b (field m) in (r, (update m v, b'))

unfoldable pub base_message_deserialize : BaseMessage → List ℕ → ℕ → ℕ × BaseMessage
base_message_deserialize msg memory size =
    let read : Step (BaseMessage × ReadBuffer) =
      done
      |= into buffer_read_uint16 (λ m. m.type) (λ m v. record m { type = v })
      |= into buffer_read_uint16 (λ m. m.id) (λ m v. record m { id = v })
      |= into buffer_read_uint16 (λ m. m.refers_to) (λ m v. record m { refers_to = v })
      |= into buffer_read_int32 (λ m. m.sent.sec)
          (λ m v. record m { sent = record { sec = v; usec = m.sent.usec } })
      |= into buffer_read_int32 (λ m. m.sent.usec)
          (λ m v. record m { sent = record { sec = m.sent.sec; usec = v } })
      |= into buffer_read_int32 (λ m. m.received.sec)
          (λ m v. record m { received = record { sec = v; usec = m.received.usec } })
      |= into buffer_read_int32 (λ m. m.received.usec)
          (λ m v. record m { received = record { sec = m.received.sec; usec = v } })
      |= into buffer_read_uint32 (λ m. m.size) (λ m v. record m { size = v }) in
    let (result, (m, _)) = read (msg, buffer_read_init memory size) in (result, m)

unfoldable pub time_message_serialize : TimeMessage → List ℕ → ℕ → ℕ × List ℕ
time_message_serialize msg memory size =
    let write : Step WriteBuffer =
      done
      |= (λ b. buffer_write_int32 b msg.latency.sec)
      |= (λ b. buffer_write_int32 b msg.latency.usec) in
    let (result, b) = write (buffer_write_init memory size) in (result, b.buffer)

unfoldable pub time_message_deserialize : TimeMessage → List ℕ → ℕ → ℕ × TimeMessage
time_message_deserialize msg memory size =
    let read : Step (TimeMessage × ReadBuffer) =
      done
      |= into buffer_read_int32 (λ m. m.latency.sec)
          (λ m v. record { latency = record { sec = v; usec = m.latency.usec } })
      |= into buffer_read_int32 (λ m. m.latency.usec)
          (λ m v. record { latency = record { sec = m.latency.sec; usec = v } }) in
    let (result, (m, _)) = read (msg, buffer_read_init memory size) in (result, m)

-- `&data[buffer.index]` is never a null pointer, so the last branch of the source is not reached.
unfoldable pub wire_chunk_message_deserialize : WireChunkMessage → List ℕ → ℕ → ℕ × WireChunkMessage
wire_chunk_message_deserialize msg memory size =
    let read : Step (WireChunkMessage × ReadBuffer) =
      done
      |= into buffer_read_int32 (λ m. m.timestamp.sec)
          (λ m v. record m { timestamp = record { sec = v; usec = m.timestamp.usec } })
      |= into buffer_read_int32 (λ m. m.timestamp.usec)
          (λ m v. record m { timestamp = record { sec = m.timestamp.sec; usec = v } })
      |= into buffer_read_uint32 (λ m. m.size) (λ m v. record m { size = v }) in
    let (result, (m, b)) = read (msg, buffer_read_init memory size) in
    if result == 0 then (result, record m { payload = some b.index }) else (result, m)

-- `malloc n` gives the `n` bytes that the allocator hands out, or none.
unfoldable pub codec_header_message_deserialize :
    (ℕ → Option (List ℕ)) → CodecHeaderMessage → List ℕ → ℕ → ℕ × CodecHeaderMessage
codec_header_message_deserialize malloc msg memory size =
    let (r0, string_size, b0) = buffer_read_uint32 (buffer_read_init memory size) 0 in
    if r0 == 0
    then elim (malloc ((string_size + 1) % 2 ^ 32)) [
      | none ↦ (2, record msg { codec = none })
      | some fresh ↦
          let (r1, codec, b1) = buffer_read_buffer b0 fresh string_size in
          let m1 = record msg { codec = some (set codec string_size 0) } in
          let (r2, length, b2) = buffer_read_uint32 b1 m1.size in
          let m2 = record m1 { size = length } in
          if r1 == 0 && r2 == 0 then (0, record m2 { payload = some b2.index }) else (1, m2)
    ]
    else (1, msg)

unfoldable pub codec_header_message_free : CodecHeaderMessage → CodecHeaderMessage
codec_header_message_free msg = record msg { codec = none }
