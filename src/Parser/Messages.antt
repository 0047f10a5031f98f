-- ===== src/Parser/Messages.antt =====
-- The messages with no variable part, of components/lightsnapcast/snapcast_protocol_parser.c: the
-- header, the time message, and the skipping of a message that is not known.
use snapclient.Base.{
  drop_all, ℕ, zero, suc, ◌+◌, ◌<◌, ◌≡◌, refl, ap, ◌∙◌, List, arith, Option, length, ◌⊎◌, inl, inr,
  ltb, if◌then◌else◌, Bool-cases,
}
use snapclient.Base.Bytes.{join_two-le_bytes, join_four-le_bytes}
use snapclient.Parser.{
  parsed, restart, parse_base_message, parse_time_message, parser_skip_typed_message, skip_loop,
}
use snapclient.Parser.Source.{
  Feeds, Stops, Consumes, Consumes-then, Consumes-pure, Consumes-byte, Consumes-uint16,
  Consumes-uint32, Consumes-timestamp, source_cases, decode_then, decode_uint16, decode_uint32,
  decode_timestamp,
}
use snapclient.Message.{BaseMessage, TimeMessage, base_message_serialize, base_message_size}
use snapclient.Message.Wire.{
  base_message_bytes, time_message_bytes, IsBaseMessage, IsTv, base_message_serialize_lem,
}

-- The header in 26 bytes, field after field.
abbrev pub decode_base : List ℕ → BaseMessage
decode_base = decode_then 2 decode_uint16 λ type. decode_then 2 decode_uint16 λ id.
    decode_then 2 decode_uint16 λ refers_to. decode_then 8 decode_timestamp λ sent.
      decode_then 8 decode_timestamp λ received. decode_then 4 decode_uint32 λ size. λ _. record {
        type = type;
        id = id;
        refers_to = refers_to;
        sent = sent;
        received = received;
        size = size;
      }

decode_base-bytes : (m : BaseMessage) → IsBaseMessage m → decode_base (base_message_bytes m) ≡ m
decode_base-bytes m v = rw (
  join_two-le_bytes m.type v.type,
  join_two-le_bytes m.id v.id,
  join_two-le_bytes m.refers_to v.refers_to,
  join_four-le_bytes m.sent.sec v.sent.0,
  join_four-le_bytes m.sent.usec v.sent.1,
  join_four-le_bytes m.received.sec v.received.0,
  join_four-le_bytes m.received.usec v.received.1,
  join_four-le_bytes m.size v.size,
)

module _ {W : Type 0} (get_byte : W → Option ℕ × W) where
  Consumes-base : Consumes get_byte 26 (parse_base_message get_byte) decode_base
  unfolding parse_base_message
  Consumes-base = Consumes-then get_byte 2 24 (Consumes-uint16 get_byte) λ type.
      Consumes-then get_byte 2 22 (Consumes-uint16 get_byte) λ id.
        Consumes-then get_byte 2 20 (Consumes-uint16 get_byte) λ refers_to.
          Consumes-then get_byte 8 12 (Consumes-timestamp get_byte) λ sent.
            Consumes-then get_byte 8 4 (Consumes-timestamp get_byte) λ received.
              Consumes-then get_byte 4 0 (Consumes-uint32 get_byte) λ size.
                Consumes-pure get_byte (record {
                  type = type;
                  id = id;
                  refers_to = refers_to;
                  sent = sent;
                  received = received;
                  size = size;
                })

  -- A source that feeds the bytes of a header has it parsed, and nothing behind it is taken.
  pub parse_base_message_lem :
      (m : BaseMessage) (w w' : W)
      → IsBaseMessage m
      → Feeds get_byte w (base_message_bytes m) w'
      → parse_base_message get_byte w ≡ parsed m w'
  parse_base_message_lem m w w' v h =
      Consumes-base.whole w w' (base_message_bytes m) h refl
      ∙ ap (λ (x : BaseMessage). parsed x w') (decode_base-bytes m v)

  -- The header that `base_message_serialize` writes into 26 bytes is the one that is parsed where a
  -- source feeds those bytes.
  pub parse_base_message-serialize :
      (m : BaseMessage) (memory : List ℕ) (w w' : W)
      → IsBaseMessage m
      → length memory ≡ base_message_size
      → Feeds get_byte w (base_message_serialize m memory base_message_size).1 w'
      → parse_base_message get_byte w ≡ parsed m w'
  parse_base_message-serialize m memory w w' v l h =
      elim (base_message_serialize_lem m memory base_message_size (omega arith) (omega arith)) [
        | inl (_, e) ↦
            parse_base_message_lem m w w' v (rw (e, drop_all memory 26 (omega arith)) at h)
        | inr (lt, _) ↦ absurd (omega arith)
      ]

  -- On any source the header is read from the next 26 bytes, or the source stops within them and a new
  -- connection is asked for.
  pub parse_base_message_cases :
      (w : W)
      → ((bs : List ℕ) × (w' : W) × Feeds get_byte w bs w'
          × (length bs ≡ 26)
          × (parse_base_message get_byte w ≡ parsed (decode_base bs) w'))
        ⊎ ((bs : List ℕ) × (w' : W) × Stops get_byte w bs w'
            × (length bs < 26)
            × (parse_base_message get_byte w ≡ restart w'))
  parse_base_message_cases w = elim (source_cases get_byte 26 w) [
    | inl (bs, w', h, l) ↦ inl (bs, w', h, l, Consumes-base.whole w w' bs h l)
    | inr (bs, w', h, l) ↦ inr (bs, w', h, l, Consumes-base.cut w w' bs h l)
  ]

  pub skip_loop-Consumes : (n : ℕ) → Consumes get_byte n (skip_loop get_byte n) (λ _. tt)
  unfolding skip_loop
  skip_loop-Consumes zero = Consumes-pure get_byte tt
  skip_loop-Consumes (suc n) =
      let e : suc n ≡ 1 + n = omega arith in
      rw e (Consumes-then get_byte 1 n (Consumes-byte get_byte) (λ b. skip_loop-Consumes n))

  -- An unknown message is skipped whole: the source is left behind the `size` bytes of its body, or a
  -- new connection is asked for if it stops within them.
  pub parser_skip_typed_message_cases :
      (m : BaseMessage) (w : W)
      → ((bs : List ℕ) × (w' : W) × Feeds get_byte w bs w'
          × (length bs ≡ m.size)
          × (parser_skip_typed_message get_byte m w ≡ parsed tt w'))
        ⊎ ((bs : List ℕ) × (w' : W) × Stops get_byte w bs w'
            × (length bs < m.size)
            × (parser_skip_typed_message get_byte m w ≡ restart w'))
  unfolding parser_skip_typed_message
  parser_skip_typed_message_cases m w = elim (source_cases get_byte m.size w) [
    | inl (bs, w', h, l) ↦ inl (bs, w', h, l, (skip_loop-Consumes m.size).whole w w' bs h l)
    | inr (bs, w', h, l) ↦ inr (bs, w', h, l, (skip_loop-Consumes m.size).cut w w' bs h l)
  ]

  -- A time message is read from its eight bytes; one whose header states a smaller size is refused
  -- all the same, behind the read.
  pub parse_time_message_lem :
      (m : BaseMessage) (t : TimeMessage) (w w' : W)
      → IsTv t.latency
      → Feeds get_byte w (time_message_bytes t) w'
      → parse_time_message get_byte m w ≡ (if ltb m.size 8 then restart w' else parsed t w')
  unfolding parse_time_message
  parse_time_message_lem m t w w' v h =
      rw
        (
          (Consumes-timestamp get_byte).whole w w' (time_message_bytes t) h refl,
          join_four-le_bytes t.latency.sec v.0,
          join_four-le_bytes t.latency.usec v.1,
        )
        (elim (Bool-cases (ltb m.size 8)) [ inl e ↦ rw e | inr e ↦ rw e ])
