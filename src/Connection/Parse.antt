-- ===== src/Connection/Parse.antt =====
-- The parser on top of main/connection_handler.c.
use snapclient.Base.{ℕ, Bool, List, ◌++◌, ◌≡◌}
use snapclient.Connection.{Lwip, Connection}
use snapclient.Connection.Pending.{Pending, source, source-Feeds}
use snapclient.Message.{BaseMessage}
use snapclient.Message.Wire.{base_message_bytes, IsBaseMessage}
use snapclient.Parser.{parsed, parse_base_message}
use snapclient.Parser.Messages.{parse_base_message_lem}

module _ {Net Buf : Type 0} (lwip : Lwip Net Buf) (ethernet : Bool) where
  -- A header is parsed from the buffer at hand, however the network cut it into segments, and what
  -- follows it stays for the next parse.
  pub parse_base_message-source :
      (fuel : ℕ) (m : BaseMessage) (more : List ℕ) (c : Connection Buf) (net : Net)
      → IsBaseMessage m
      → Pending lwip ethernet fuel c (base_message_bytes m ++ more)
      → (c' : Connection Buf) × (parse_base_message (source lwip ethernet fuel) (c, net)
          ≡ parsed m (c', net))
        × Pending lwip ethernet fuel c' more
  parse_base_message-source fuel m more c net v p =
      let (c', f, p') = source-Feeds lwip ethernet fuel (base_message_bytes m) more c net p in
      (c', parse_base_message_lem (source lwip ethernet fuel) m (c, net) (c', net) v f, p')
