-- ===== src/Connection.antt =====
-- main/connection_handler.c: the bytes of the server's stream, one by one, from the buffers that lwIP
-- hands out. lwIP and the network interfaces are parameters: `Net` is what they keep and `Buf` a
-- `struct netbuf`. Each `while (1)` runs on fuel, and `waiting` is a loop that still runs.
pub mod Segments
pub mod Pending
pub mod Receive
pub mod Parse
pub mod Setup
use snapclient.Base.{
  ℕ, zero, suc, ◌==◌, List, [], ◌∷◌, Option, none, some, Bool, true, false, not, ◌&&◌,
  if◌then◌else◌,
}

-- `ERR_OK`, `ERR_CONN`, `ERR_TIMEOUT` and all other codes.
pub data Err : Type 0 where
  err_ok err_conn err_timeout err_other : Err

abbrev pub is_ok : Err → Bool
is_ok err_ok = true
is_ok err_conn = false
is_ok err_timeout = false
is_ok err_other = false

-- `connection_state_t`
pub data ConnectionState : Type 0 where
  connection_initialized connection_data_received connection_buffer_filled
        connection_restart_required :
      ConnectionState

-- What the code uses of lwIP and of the network interfaces. `recv` is `netconn_recv` with what it leaves
-- in its buffer argument, and `segment` is `netbuf_data`, `none` its failure.
pub record Lwip (Net Buf : Type 0) : Type 0 where
  pub recv : Net → Err × Option Buf × Net
  pub close : Net → Net
  pub delete : Buf → Net → Net
  pub before_receive : Net → Net
  pub is_muted : Net → Bool
  pub first : Buf → Buf
  pub next : Buf → Option Buf
  pub segment : Buf → Option (List ℕ)
  pub eth_netif : ℕ
  pub is_netif_up : ℕ → Net → Bool

-- `connection_t`; `start` is the list of the `len` bytes that are left of a segment.
pub record Connection (Buf : Type 0) : Type 0 where
  pub netif : ℕ
  pub first_net_buf : Option Buf
  pub start : List ℕ
  pub state : ConnectionState
  pub first_receive : Bool
  pub first_netbuf_processed : Bool
  pub rc1 : Err

-- The result 0 or -1 of a step, or a loop whose fuel is used up.
pub data Answer : Type 0 where
  success failure waiting : Answer

-- Whether `CONNECTION_BUFFER_FILLED` finds a byte.
abbrev pub is_ready : {Buf : Type 0} → Connection Buf → Bool
is_ready c = elim c.state [
  | connection_initialized ↦ false
  | connection_data_received ↦ false
  | connection_buffer_filled ↦ elim c.start [ [] ↦ false | b ∷ bs ↦ true ]
  | connection_restart_required ↦ false
]

module _ {Net Buf : Type 0} where
  -- What `receive_data` leaves in `*firstNetBuf`.
  abbrev pub with_buffer :
      Connection Buf → Answer × Option Buf × Net → Answer × Connection Buf × Net
  with_buffer c (answer, buf, net) =
      (answer, record c { first_receive = false; first_net_buf = buf }, net)

  -- `*buffer = *(connection->start)`, and the byte is gone.
  abbrev pub first_byte : Answer × Connection Buf × Net → Answer × Option ℕ × Connection Buf × Net
  first_byte (success, c, net) = elim c.start [
    | [] ↦ (success, none, c, net)
    | b ∷ bs ↦ (success, some b, record c { start = bs }, net)
  ]
  first_byte (failure, c, net) = (failure, none, c, net)
  first_byte (waiting, c, net) = (waiting, none, c, net)

  -- What the states `CONNECTION_INITIALIZED` and `CONNECTION_DATA_RECEIVED` do with the answer.
  abbrev pub after_receive : Answer × Connection Buf × Net → Answer × Connection Buf × Net
  after_receive (success, c, net) =
      (success, record c { first_netbuf_processed = false; state = connection_data_received }, net)
  after_receive (failure, c, net) = (success, record c { state = connection_restart_required }, net)
  after_receive (waiting, c, net) = (waiting, c, net)

  abbrev pub after_fill : Answer × Connection Buf → Net → Answer × Connection Buf × Net
  after_fill (success, c) net = (success, record c { state = connection_buffer_filled }, net)
  after_fill (failure, c) net = (success, record c { state = connection_initialized }, net)
  after_fill (waiting, c) net = (waiting, c, net)

module _ {Net Buf : Type 0} (lwip : Lwip Net Buf) where
  -- `netbuf_delete`, which does nothing for a null pointer.
  abbrev pub drop_buffer : Option Buf → Net → Net
  drop_buffer none net = net
  drop_buffer (some buf) net = lwip.delete buf net

  -- The loop around `netconn_recv`: it is called again after a timeout or an error, but not when the
  -- connection is closed.
  abbrev pub after_recv :
      (Net → Answer × Option Buf × Net) → Err × Option Buf × Net → Answer × Option Buf × Net
  after_recv again (err_ok, buf, net) = (success, buf, net)
  after_recv again (err_conn, buf, net) = (failure, buf, lwip.close net)
  after_recv again (err_timeout, buf, net) = again (drop_buffer buf net)
  after_recv again (err_other, buf, net) = again (drop_buffer buf net)

  unfoldable pub receive_loop : ℕ → Net → Answer × Option Buf × Net
  receive_loop zero net = (waiting, none, net)
  receive_loop (suc fuel) net =
      after_recv (λ net'. receive_loop fuel net') (lwip.recv (lwip.before_receive net))

  -- `netbuf_first` or `netbuf_next`; `none` is the end of the buffer.
  unfoldable pub move : Connection Buf → Option (Connection Buf)
  move c = elim c.first_net_buf [
    | none ↦ none
    | some buf ↦
        if c.first_netbuf_processed
        then elim (lwip.next buf) [
          | none ↦ none
          | some buf' ↦ some (record c { first_net_buf = some buf' })
        ]
        else some
            (record c { first_net_buf = some (lwip.first buf); first_netbuf_processed = true })
  ]

  abbrev pub segment_of : Option Buf → Option (List ℕ)
  segment_of none = none
  segment_of (some buf) = lwip.segment buf

  unfoldable pub fill_buffer : ℕ → Connection Buf → Answer × Connection Buf
  unfolding move
  fill_buffer zero c = (waiting, c)
  fill_buffer (suc fuel) c =
      let rest = λ (c' : Connection Buf). fill_buffer fuel c' in
      elim (move c) [
        | none ↦ (failure, c)
        | some c' ↦ elim (segment_of c'.first_net_buf) [
          | some bytes ↦ (success, record c' { start = bytes; rc1 = err_ok })
          | none ↦ rest (record c' { rc1 = err_other })
        ]
      ]

module _ {Net Buf : Type 0} (lwip : Lwip Net Buf) (ethernet : Bool) where
  -- While muted a client that is built with Ethernet leaves another interface once Ethernet is up.
  unfoldable pub prefer_ethernet : Bool → ℕ → Answer × Option Buf × Net → Answer × Option Buf × Net
  prefer_ethernet is_muted netif (success, buf, net) =
      if ethernet
        && is_muted
        && not (netif == lwip.eth_netif)
        && lwip.is_netif_up lwip.eth_netif net
      then (failure, none, drop_buffer lwip buf (lwip.close net))
      else (success, buf, net)
  prefer_ethernet is_muted netif (failure, buf, net) = (failure, buf, net)
  prefer_ethernet is_muted netif (waiting, buf, net) = (waiting, buf, net)

  unfoldable pub receive_data : ℕ → Connection Buf → Net → Answer × Connection Buf × Net
  unfolding receive_loop prefer_ethernet
  receive_data fuel c net =
      let net' = if c.first_receive then net else drop_buffer lwip c.first_net_buf net in
      if not c.first_receive && not (is_ok c.rc1)
      then (failure, c, lwip.close net')
      else with_buffer c (prefer_ethernet (lwip.is_muted net) c.netif (receive_loop lwip fuel net'))

  -- A round of a state that does not return.
  unfoldable pub round : ℕ → Connection Buf → Net → Answer × Connection Buf × Net
  unfolding receive_data fill_buffer
  round fuel c net = elim c.state [
    | connection_initialized ↦ after_receive (receive_data fuel c net)
    | connection_data_received ↦ after_fill (fill_buffer lwip fuel c) net
    | connection_buffer_filled ↦ (success, record c { state = connection_data_received }, net)
    | connection_restart_required ↦ (failure, c, net)
  ]

  unfoldable pub connection_ensure_byte : ℕ → Connection Buf × Net → Answer × Connection Buf × Net
  unfolding round
  connection_ensure_byte zero (c, net) = (waiting, c, net)
  connection_ensure_byte (suc fuel) (c, net) =
      let (answer, c', net') = round fuel c net in
      let rest = connection_ensure_byte fuel (c', net') in
      if is_ready c then (success, record c { rc1 = err_ok }, net) else elim answer [
        | success ↦ rest
        | failure ↦ (failure, c', net')
        | waiting ↦ (waiting, c', net')
      ]

  -- With the byte that is written to `*buffer`.
  unfoldable pub connection_get_byte :
      ℕ → Connection Buf × Net → Answer × Option ℕ × Connection Buf × Net
  unfolding connection_ensure_byte
  connection_get_byte fuel w = first_byte (connection_ensure_byte fuel w)
