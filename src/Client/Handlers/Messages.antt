-- ===== src/Client/Handlers/Messages.antt =====
-- Whole messages in `process_data` of main/main.c, from the bytes of the connection.
use snapclient.Base.{ℕ, ◌<◌, ◌==◌, ◌≡◌, refl, ◌∙◌, arith, List, ◌++◌, true, false, length}
use snapclient.Message.{BaseMessage}
use snapclient.Message.Wire.{IsBaseMessage, base_message_bytes}
use snapclient.Parser.{parsed, parser_skip_typed_message}
use snapclient.Parser.Source.{Feeds}
use snapclient.Parser.Data.{Feeds-append}
use snapclient.Parser.Messages.{parse_base_message_lem, skip_loop-Consumes}
use snapclient.Client.Handlers.{Client}
use snapclient.Client.Handlers.Process.{
  Services, process_data, dispatch, received_at, set_now, on_wire_chunk,
}

module _ {W J D L Q M : Type 0} (services : Services W J D L Q M) where
  parser_skip_typed_message-Feeds :
      (m : BaseMessage) (body : List ℕ) (w w' : W)
      → length body ≡ m.size
      → Feeds services.get_byte w body w'
      → parser_skip_typed_message services.get_byte m w ≡ parsed tt w'
  unfolding parser_skip_typed_message
  parser_skip_typed_message-Feeds m body w w' l h =
      (skip_loop-Consumes services.get_byte m.size).whole w w' body h l

  -- The header is parsed, and the message is handled by its type.
  pub process_data-dispatches :
      (now : ℕ) (c : Client D L Q M) (m : BaseMessage) (w w' : W)
      → IsBaseMessage m
      → Feeds services.get_byte w (base_message_bytes m) w'
      → process_data services now (c, w)
        ≡ dispatch services (received_at now m) (set_now services now c, w')
  unfolding process_data
  process_data-dispatches now c m w w' v h =
      rw (parse_base_message_lem services.get_byte m w w' v h) refl

  -- A chunk before the codec header, or a message of a type that the client does not handle.
  pub data IsSkipped (m : BaseMessage) (c : Client D L Q M) : Type 0 where
    early_chunk : m.type ≡ 2 → c.header.received ≡ false → IsSkipped m c
    no_type : m.type ≡ 0 → IsSkipped m c
    other_type : 4 < m.type → IsSkipped m c

  dispatch-skips :
      (m : BaseMessage) (body : List ℕ) (c c' : Client D L Q M) (w w' : W)
      → IsSkipped m c
      → c'.header.received ≡ c.header.received
      → length body ≡ m.size
      → Feeds services.get_byte w body w'
      → dispatch services m (c', w) ≡ parsed tt (c', w')
  unfolding on_wire_chunk
  dispatch-skips m body c c' w w' (early_chunk e none_yet) same l h =
      let is_chunk : (m.type == 2) ≡ true = ground (arith, e) in
      rw (is_chunk, same, none_yet, parser_skip_typed_message-Feeds m body w w' l h) refl
  dispatch-skips m body c c' w w' (no_type e) same l h =
      let n2 : (m.type == 2) ≡ false = ground (arith, e) in
      let n1 : (m.type == 1) ≡ false = ground (arith, e) in
      let n3 : (m.type == 3) ≡ false = ground (arith, e) in
      let n4 : (m.type == 4) ≡ false = ground (arith, e) in
      rw (n2, n1, n3, n4, parser_skip_typed_message-Feeds m body w w' l h) refl
  dispatch-skips m body c c' w w' (other_type e) same l h =
      let n2 : (m.type == 2) ≡ false = ground (arith, e) in
      let n1 : (m.type == 1) ≡ false = ground (arith, e) in
      let n3 : (m.type == 3) ≡ false = ground (arith, e) in
      let n4 : (m.type == 4) ≡ false = ground (arith, e) in
      rw (n2, n1, n3, n4, parser_skip_typed_message-Feeds m body w w' l h) refl

  received_at-IsSkipped :
      (now : ℕ) (m : BaseMessage) (c : Client D L Q M)
      → IsSkipped m c
      → IsSkipped (received_at now m) c
  received_at-IsSkipped now m c (early_chunk e none_yet) = early_chunk e none_yet
  received_at-IsSkipped now m c (no_type e) = no_type e
  received_at-IsSkipped now m c (other_type e) = other_type e

  -- A chunk of audio that comes before the codec header, and a message of a type that the client does not
  -- handle, are read from the connection whole, up to the next message. Nothing changes but the time.
  pub process_data-skips :
      (now : ℕ) (c : Client D L Q M) (m : BaseMessage) (body : List ℕ) (w w' : W)
      → IsBaseMessage m
      → IsSkipped m c
      → length body ≡ m.size
      → Feeds services.get_byte w (base_message_bytes m ++ body) w'
      → process_data services now (c, w) ≡ parsed tt (set_now services now c, w')
  process_data-skips now c m body w w' v skipped l h =
      let (w1, head, rest) = Feeds-append services.get_byte (base_message_bytes m) w w' body h in
      process_data-dispatches now c m w w1 v head
      ∙ dispatch-skips (received_at now m) body c (set_now services now c) w1 w'
          (received_at-IsSkipped now m c skipped) refl l rest
