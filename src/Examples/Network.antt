-- ===== src/Examples/Network.antt =====
-- The connection of main/connection_handler.c on a concrete network.
use snapclient.Base.{
  ℕ, List, [], ◌∷◌, ◌++◌, ◌≡◌, refl, Option, some, none, true, false, inl, arith, take, drop,
}
use snapclient.Connection.{
  Lwip, Connection, Err, err_ok, err_conn, err_timeout, connection_initialized,
  connection_data_received, success, connection_get_byte,
}
use snapclient.Connection.Segments.{joined, Holds}
use snapclient.Connection.Pending.{Pending}
use snapclient.Connection.Receive.{IsIdle, connection_get_byte-receives}
use snapclient.Message.Wire.{base_message_bytes}
use snapclient.Examples.Messages.{time_request}

-- A buffer with its segments and the place in it.
abbrev Chain : Type 0
Chain = List (Option (List ℕ)) × List (Option (List ℕ))

abbrev next_segment : Chain → Option Chain
next_segment (all, []) = none
next_segment (all, s ∷ []) = none
next_segment (all, s ∷ t ∷ rest) = some (all, t ∷ rest)

abbrev this_segment : Chain → Option (List ℕ)
this_segment (all, []) = none
this_segment (all, s ∷ rest) = s

abbrev next_answer : List (Err × Option Chain) → Err × Option Chain × List (Err × Option Chain)
next_answer [] = (err_conn, none, [])
next_answer ((e, o) ∷ net) = (e, o, net)

abbrev wire : Lwip (List (Err × Option Chain)) Chain
wire = record {
  recv = λ net. next_answer net;
  close = λ net. [];
  delete = λ buf net. net;
  before_receive = λ net. net;
  is_muted = λ net. false;
  first = λ buf. (buf.0, buf.0);
  next = λ buf. next_segment buf;
  segment = λ buf. this_segment buf;
  eth_netif = 2;
  is_netif_up = λ netif net. true;
}

abbrev fresh : Connection Chain
fresh = record {
  netif = 1;
  first_net_buf = none;
  start = [];
  state = connection_initialized;
  first_receive = true;
  first_netbuf_processed = false;
  rc1 = err_ok;
}

-- The bytes of a header in two segments, with an empty one and one that cannot be read between them.
abbrev bytes : List ℕ
bytes = base_message_bytes time_request

abbrev segments : List (Option (List ℕ))
segments = some (take 3 bytes) ∷ some [] ∷ none ∷ some (drop 3 bytes) ∷ []

abbrev buffer : Chain
buffer = (segments, [])

abbrev received : Connection Chain
received = record fresh {
  first_receive = false;
  first_net_buf = some buffer;
  state = connection_data_received;
}

segments-Holds : Holds wire (some (wire.first buffer)) segments
segments-Holds = (
  (segments, segments),
  refl,
  refl,
  (
    (segments, drop 1 segments),
    refl,
    refl,
    ((segments, drop 2 segments), refl, refl, ((segments, drop 3 segments), refl, refl, refl)),
  ),
)

fresh-IsIdle : IsIdle wire true fresh
fresh-IsIdle = record { state = refl; clean = inl refl }

abbrev answers : List (Err × Option Chain)
answers = (err_timeout, none) ∷ (err_ok, some buffer) ∷ []

connection_get_byte-receives_example :
    (c' : Connection Chain) × (connection_get_byte wire true 13 (fresh, answers)
      ≡ (success, some 4, c', []))
    × Pending wire true 13 c' (drop 1 bytes ++ [])
unfolding joined
connection_get_byte-receives_example =
    connection_get_byte-receives wire true 1 13 4 (drop 1 bytes ++ []) fresh answers [] buffer
      segments fresh-IsIdle (err_timeout, none, (err_ok, some buffer) ∷ [], inl refl, refl, refl)
      refl segments-Holds refl (omega arith)
