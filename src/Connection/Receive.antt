-- ===== src/Connection/Receive.antt =====
-- How main/connection_handler.c gets its next buffer, and how the stream ends.
use snapclient.Base.{
  ℕ, zero, suc, ◌+◌, ◌*◌, ◌≤◌, ◌<◌, ◌≡◌, refl, ap, ◌∙◌, List, ◌∷◌, Option, none, some, Bool, true,
  false, length, arith, if◌then◌else◌, ◌⊎◌, inl, inr, Bool-cases, ◌&&◌, ◌==◌, not,
}
use snapclient.Connection.{
  Lwip, Connection, connection_initialized, connection_data_received, connection_restart_required,
  Answer, success, failure, waiting, Err, err_ok, err_conn, err_timeout, err_other, is_ok, is_ready,
  round, after_receive, with_buffer, drop_buffer, after_recv, receive_loop, prefer_ethernet,
  receive_data, connection_ensure_byte, connection_get_byte, first_byte,
}
use snapclient.Connection.Segments.{joined, Holds}
use snapclient.Connection.Pending.{Pending, ensure_step, ensure_data, get-Ready}

module _ {Net Buf : Type 0} (lwip : Lwip Net Buf) where
  -- `n` calls of `netconn_recv` time out or fail, and then one answers.
  abbrev pub Answers : ℕ → Net → Err → Option Buf → Net → Type 0
  Answers zero net code buf net' = lwip.recv (lwip.before_receive net) ≡ (code, buf, net')
  Answers (suc n) net code buf net' =
      (e : Err) × (o : Option Buf) × (net1 : Net) × ((e ≡ err_timeout) ⊎ (e ≡ err_other))
      × (lwip.recv (lwip.before_receive net) ≡ (e, o, net1))
      × Answers n (drop_buffer lwip o net1) code buf net'

  receive_loop_lem :
      (n fuel : ℕ) (net net' : Net) (code : Err) (buf : Option Buf)
      → Answers n net code buf net'
      → n < fuel
      → (code ≡ err_ok) ⊎ (code ≡ err_conn)
      → receive_loop lwip fuel net ≡ after_recv lwip (λ x. (waiting, none, x)) (code, buf, net')
  unfolding receive_loop
  receive_loop_lem n zero net net' code buf a l k = absurd (omega arith)
  receive_loop_lem zero (suc fuel) net net' code buf a l (inl k) =
      ap (after_recv lwip (λ x. receive_loop lwip fuel x)) (a ∙ ap (λ (x : Err). (x, buf, net')) k)
      ∙ rw k
  receive_loop_lem zero (suc fuel) net net' code buf a l (inr k) =
      ap (after_recv lwip (λ x. receive_loop lwip fuel x)) (a ∙ ap (λ (x : Err). (x, buf, net')) k)
      ∙ rw k
  receive_loop_lem (suc n) (suc fuel) net net' code buf (e, o, net1, inl t, r, a) l k =
      ap (after_recv lwip (λ x. receive_loop lwip fuel x)) (r ∙ ap (λ (x : Err). (x, o, net1)) t)
      ∙ receive_loop_lem n fuel (drop_buffer lwip o net1) net' code buf a (omega arith) k
  receive_loop_lem (suc n) (suc fuel) net net' code buf (e, o, net1, inr t, r, a) l k =
      ap (after_recv lwip (λ x. receive_loop lwip fuel x)) (r ∙ ap (λ (x : Err). (x, o, net1)) t)
      ∙ receive_loop_lem n fuel (drop_buffer lwip o net1) net' code buf a (omega arith) k

module _ {Net Buf : Type 0} (lwip : Lwip Net Buf) (ethernet : Bool) where
  -- The connection asks for its next buffer, and its last one was read without an error.
  pub record IsIdle (c : Connection Buf) : Type 0 where
    pub state : c.state ≡ connection_initialized
    pub clean : (c.first_receive ≡ true) ⊎ (c.rc1 ≡ err_ok)

  -- The network at the call of `netconn_recv`: the last buffer is deleted, if there was one.
  abbrev pub before_loop : Connection Buf → Net → Net
  before_loop c net = if c.first_receive then net else drop_buffer lwip c.first_net_buf net

  -- It does not leave its interface for Ethernet.
  abbrev pub Stays : Connection Buf → Net → Net → Type 0
  Stays c net net' =
      (ethernet
        && lwip.is_muted net
        && not (c.netif == lwip.eth_netif)
        && lwip.is_netif_up lwip.eth_netif net')
      ≡ false

  receive_data_lem :
      (fuel : ℕ) (c : Connection Buf) (net : Net) (r : Answer × Option Buf × Net)
      → (c.first_receive ≡ true) ⊎ (c.rc1 ≡ err_ok)
      → receive_loop lwip fuel (before_loop c net) ≡ r
      → receive_data lwip ethernet fuel c net
        ≡ with_buffer c (prefer_ethernet lwip ethernet (lwip.is_muted net) c.netif r)
  unfolding receive_data
  receive_data_lem fuel c net r (inl f) e = rw f (
      ap
        (λ (x : Answer × Option Buf × Net).
          with_buffer c (prefer_ethernet lwip ethernet (lwip.is_muted net) c.netif x))
        (rw f at e))
  receive_data_lem fuel c net r (inr k) e = elim (Bool-cases c.first_receive) [
    | inl f ↦ rw f (
        ap
          (λ (x : Answer × Option Buf × Net).
            with_buffer c (prefer_ethernet lwip ethernet (lwip.is_muted net) c.netif x))
          (rw f at e))
    | inr f ↦
        let k' : is_ok c.rc1 ≡ true = ap is_ok k in
        rw (f, k')
          (ap
            (λ (x : Answer × Option Buf × Net).
              with_buffer c (prefer_ethernet lwip ethernet (lwip.is_muted net) c.netif x))
            (rw f at e))
  ]

  round_receives :
      (fuel : ℕ) (c : Connection Buf) (net : Net) (r : Answer × Connection Buf × Net)
      → c.state ≡ connection_initialized
      → receive_data lwip ethernet fuel c net ≡ r
      → round lwip ethernet fuel c net ≡ after_receive r
  unfolding round
  round_receives fuel c net r s e = rw (round, s) (ap after_receive e)

  idle_not_ready : (c : Connection Buf) → c.state ≡ connection_initialized → is_ready c ≡ false
  idle_not_ready c s = rw s

  prefer_ethernet-Stays :
      (c : Connection Buf) (net net' : Net) (buf : Option Buf)
      → Stays c net net'
      → prefer_ethernet lwip ethernet (lwip.is_muted net) c.netif (success, buf, net')
        ≡ (success, buf, net')
  unfolding prefer_ethernet
  prefer_ethernet-Stays c net net' buf e = rw e

  -- What a connection without bytes does: it receives, deletes what it does not need, and goes on from
  -- the new buffer, whose first byte is handed out. Any number of timeouts and errors may come before in this receive.
  -- The last buffer was read without an error, or this is the first, and the connection does not leave its interface
  -- for Ethernet, as it does when the sound is muted and Ethernet is up. The fuel is enough for the segments.
  pub connection_get_byte-receives :
      (n fuel b : ℕ) (bs : List ℕ) (c : Connection Buf) (net net' : Net) (buf : Buf)
      (ss : List (Option (List ℕ)))
      → IsIdle c
      → Answers lwip n (before_loop c net) err_ok (some buf) net'
      → Stays c net net'
      → Holds lwip (some (lwip.first buf)) ss
      → joined ss ≡ b ∷ bs
      → 2 * length ss + n + 2 ≤ fuel
      → (c' : Connection Buf) × (connection_get_byte lwip ethernet fuel (c, net)
          ≡ (success, some b, c', net'))
        × Pending lwip ethernet fuel c' bs
  connection_get_byte-receives n zero b bs c net net' buf ss i a st h e k = absurd (omega arith)
  connection_get_byte-receives n (suc fuel) b bs c net net' buf ss i a st h e k =
      let loop =
        receive_loop_lem lwip n fuel (before_loop c net) net' err_ok (some buf) a (omega arith)
          (inl refl) in
      let received =
        receive_data_lem fuel c net (success, some buf, net') i.clean loop
        ∙ ap (with_buffer c) (prefer_ethernet-Stays c net net' (some buf) st) in
      let c1 = record c {
        first_receive = false;
        first_net_buf = some buf;
        first_netbuf_processed = false;
        state = connection_data_received;
      } in
      let step = ensure_step lwip ethernet fuel c c1 net net' (idle_not_ready c i.state) (
        round_receives fuel c net
          (success, record c { first_receive = false; first_net_buf = some buf }, net') i.state
          received) in
      let (c', f, r) =
        ensure_data lwip ethernet (length ss) fuel b bs ss c1 net' refl h e (omega arith)
          (omega arith) in
      get-Ready lwip ethernet (length ss) (suc fuel) b bs c c' net net' (step ∙ f) r (omega arith)

  -- The server closes the connection: no byte comes, then nor at any later call, and the socket is
  -- closed.
  pub connection_get_byte-closed :
      (n fuel fuel' : ℕ) (c : Connection Buf) (net net' net'' : Net) (buf : Option Buf)
      → IsIdle c
      → Answers lwip n (before_loop c net) err_conn buf net'
      → n + 1 < fuel
      → (c' : Connection Buf) × (connection_get_byte lwip ethernet fuel (c, net)
          ≡ (failure, none, c', lwip.close net'))
        × (connection_get_byte lwip ethernet (suc fuel') (c', net'') ≡ (failure, none, c', net''))
  unfolding connection_get_byte
  connection_get_byte-closed n zero fuel' c net net' net'' buf i a k = absurd (omega arith)
  connection_get_byte-closed n (suc zero) fuel' c net net' net'' buf i a k = absurd (omega arith)
  connection_get_byte-closed n (suc (suc fuel)) fuel' c net net' net'' buf i a k =
      let loop =
        receive_loop_lem lwip n (suc fuel) (before_loop c net) net' err_conn buf a (omega arith)
          (inr refl) in
      let received =
        receive_data_lem (suc fuel) c net (failure, buf, lwip.close net') i.clean loop in
      let c1 = record c {
        first_receive = false;
        first_net_buf = buf;
        state = connection_restart_required;
      } in
      let step =
        ensure_step lwip ethernet (suc fuel) c c1 net (lwip.close net') (idle_not_ready c i.state) (
          round_receives (suc fuel) c net
            (failure, record c { first_receive = false; first_net_buf = buf }, lwip.close net')
            i.state (received ∙ (unfold prefer_ethernet in refl))) in
      (
        c1,
        ap first_byte (step ∙ (unfold connection_ensure_byte round in refl)),
        unfold connection_ensure_byte round in refl,
      )
