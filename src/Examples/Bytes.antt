-- ===== src/Examples/Bytes.antt =====
-- The byte buffers of components/libbuffer/buffer.c on concrete inputs.
use snapclient.Base.{[], ◌∷◌, ◌≡◌, arith}
use snapclient.Buffer.{ReadBuffer, WriteBuffer}
use snapclient.Buffer.Read.{advance}
use snapclient.Buffer.RoundTrip.{
  uint16, write_integer, read_integer, reread, read_integer-write_integer,
}

abbrev six : WriteBuffer
six = record { buffer = 9 ∷ 8 ∷ 7 ∷ 6 ∷ 5 ∷ 4 ∷ []; size = 6; index = 1 }

abbrev full : ReadBuffer
full = record { buffer = 9 ∷ 8 ∷ 7 ∷ 6 ∷ 5 ∷ 4 ∷ []; size = 6; index = 5 }

read_integer-write_integer_example :
    ((write_integer uint16 six 0xabcd).0 ≡ 0)
    × ((write_integer uint16 six 0xabcd).1.index ≡ 3)
    × (read_integer uint16 (reread six (write_integer uint16 six 0xabcd).1) 0
        ≡ (0, 0xabcd, advance (reread six (write_integer uint16 six 0xabcd).1) 2))
read_integer-write_integer_example =
    read_integer-write_integer uint16 six 0xabcd 0 (omega arith) (omega arith) (omega arith)
