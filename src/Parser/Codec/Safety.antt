-- ===== src/Parser/Codec/Safety.antt =====
-- What holds after `parse_codec_header_message` on any source, and the one length on which it writes
-- outside of its buffer.
use snapclient.Base.{
  ℕ, ◌+◌, ◌-◌, ◌%◌, ◌^◌, ◌≡◌, ◌≢◌, refl, List, ◌++◌, arith, Option, none, some, true, false, ltb,
  length, set, Bool-cases, Option-cases, inl, inr,
}
use snapclient.Base.Bytes.{le_bytes}
use snapclient.Parser.{
  Outcome, Parse, parsed, restart, halted, fault, waiting, then_outcome, with_state, read_uint32_le,
  read_data,
}
use snapclient.Parser.Source.{Feeds}
use snapclient.Parser.Data.{Feeds-append, read_data-overflows}
use snapclient.Parser.Codec.{
  CodecHeader, codec_named, c_string, is_supported, codec_string, read_payload, read_codec_name,
  refuse_long_name, parse_codec_header_message,
}
use snapclient.Parser.Codec.Laws.{read_uint32-Feeds}

-- A codec header counts as received only where it was parsed, with a codec that the client decodes
-- and its payload at hand.
abbrev pub IsConsistent : {W : Type 0} → Outcome (CodecHeader × W) (Unit {0}) → Type 0
IsConsistent (parsed _ (h, _)) =
    (h.received ≡ true) × (is_supported h.codec ≡ true) × (h.payload ≢ none)
IsConsistent (restart (h, _)) = h.received ≡ false
IsConsistent (halted (h, _)) = h.received ≡ false
IsConsistent (fault (h, _)) = h.received ≡ false
IsConsistent (waiting (h, _)) = h.received ≡ false

module _ {W : Type 0} (get_byte : W → Option ℕ × W) (malloc : ℕ → Option (List ℕ)) where
  then_IsConsistent :
      {A : Type 0} (h : CodecHeader) (o : Outcome W A) (f : A → Parse (CodecHeader × W) (Unit {0}))
      → h.received ≡ false
      → ((a : A) (w : W) → IsConsistent (f a (h, w)))
      → IsConsistent (then_outcome (with_state h o) f)
  then_IsConsistent h (parsed a w) f e k = k a w
  then_IsConsistent h (restart w) f e k = e
  then_IsConsistent h (halted w) f e k = e
  then_IsConsistent h (fault w) f e k = e
  then_IsConsistent h (waiting w) f e k = e

  some_ne_none : (xs : List ℕ) → ◌≢◌ {A = Option (List ℕ)} (some xs) none
  some_ne_none xs e = cc

  read_payload-IsConsistent :
      (h : CodecHeader) (w : W)
      → h.received ≡ false
      → is_supported h.codec ≡ true
      → IsConsistent (read_payload get_byte malloc (h, w))
  unfolding read_payload
  read_payload-IsConsistent h w e s = then_IsConsistent h (read_uint32_le get_byte w) _ e λ len v.
      elim (Option-cases (malloc len)) [
        | inl m ↦ rw m e
        | inr (block, m) ↦ rw m (
            then_IsConsistent (record h { payload_len = len; payload = some block })
              (read_data get_byte block len v) _ e λ filled u. (refl, s, some_ne_none filled))
      ]

  read_codec_name-IsConsistent :
      (len : ℕ) (h : CodecHeader) (w : W)
      → h.received ≡ false
      → IsConsistent (read_codec_name get_byte malloc len (h, w))
  unfolding read_codec_name
  read_codec_name-IsConsistent len h w e =
      then_IsConsistent h (read_data get_byte codec_string len w) _ e λ name v.
        let codec = codec_named (c_string (set name len 0)) in
        elim (Bool-cases (is_supported codec)) [
          | inl s ↦ rw s (read_payload-IsConsistent (record h { codec = codec }) v e s)
          | inr u ↦ rw u e
        ]

  -- Whatever the source feeds and whatever was known before: the header counts as received exactly
  -- where it is parsed, and then its codec is supported and its payload is there.
  pub parse_codec_header_message-IsConsistent :
      (h : CodecHeader) (w : W) → IsConsistent (parse_codec_header_message get_byte malloc (h, w))
  unfolding parse_codec_header_message refuse_long_name
  parse_codec_header_message-IsConsistent h w =
      then_IsConsistent (record h { received = false }) (read_uint32_le get_byte w) _ refl
        λ len v. elim (Bool-cases (ltb 8 ((len + 1) % 2 ^ 32))) [
          | inl long ↦ rw long (
              then_IsConsistent (record h { received = false })
                (read_data get_byte codec_string 7 v) _ refl (λ _ u. refl))
          | inr short ↦
              rw short (read_codec_name-IsConsistent len (record h { received = false }) v refl)
        ]

  -- The length 2 ^ 32 - 1 passes the test of the name's length, since the sum wraps, and the ninth byte
  -- of the name is written behind the eight of the buffer.
  pub parse_codec_header_message-overflows :
      (h : CodecHeader) (name : List ℕ) (w w' : W)
      → length name ≡ 9
      → Feeds get_byte w (le_bytes 4 (2 ^ 32 - 1) ++ name) w'
      → parse_codec_header_message get_byte malloc (h, w)
        ≡ fault (record h { received = false }, w')
  unfolding parse_codec_header_message read_codec_name
  parse_codec_header_message-overflows h name w w' l f =
      let (v, f0, f1) = Feeds-append get_byte (le_bytes 4 (2 ^ 32 - 1)) w w' name f in
      rw (
        read_uint32-Feeds get_byte malloc (2 ^ 32 - 1) w v (omega arith) f0,
        read_data-overflows get_byte (2 ^ 32 - 1) codec_string name v w' f1 l (omega arith),
      )
