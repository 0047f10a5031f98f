-- ===== src/Client/TimeSync.antt =====
-- The exchange of times with the server in main/main.c. Times are microseconds; no sum of an exchange
-- leaves the range of an int64_t, since a `tv_t` holds two int32_t. What the player and the socket do is a
-- parameter.
pub mod Offset
pub mod Pace
use snapclient.Base.{
  ℕ, zero, suc, ◌+◌, ◌-◌, ◌*◌, ◌/◌, ◌%◌, ◌^◌, List, replicate, Bool, true, false, not, ◌&&◌, ltb,
  leb, if◌then◌else◌,
}
use snapclient.Base.Int.{ℤ, pos, negsuc, signed, ◌+ℤ◌, ◌-ℤ◌, ◌*ℤ◌}
use snapclient.Message.{Tv, BaseMessage, TimeMessage, base_message_serialize}

-- `sec * 1000000LL + usec`
unfoldable pub micros : Tv → ℤ
micros t = signed t.sec *ℤ pos 1000000 +ℤ signed t.usec

-- Division by 2, towards 0.
abbrev pub half : ℤ → ℤ
half (pos n) = pos (n / 2)
half (negsuc n) = if ltb n 1 then pos 0 else negsuc (suc n / 2 - 1)

-- `time_sync_data_t`; the clock of the client begins at 0.
pub record TimeSync : Type 0 where
  pub now : ℕ
  pub last_time_sync : ℕ
  pub last_time_sync_sent : ℕ
  pub timeout : ℕ

-- `FAST_SYNC_LATENCY_BUF` and `NORMAL_SYNC_LATENCY_BUF`.
abbrev pub fast : ℕ
fast = 10000

abbrev pub normal : ℕ
normal = 1000000

-- The player's buffer of latencies: `player_latency_insert` with the three arguments of the build with the
-- time filter (the other one passes the first), `reset_latency_buffer` and `latency_buffer_full`.
pub record Latencies (P : Type 0) : Type 0 where
  pub insert : ℤ → ℤ → ℤ → P → P
  pub reset : P → P
  pub full : P → Bool

-- With the time limit of a receive that was set last, in milliseconds.
pub record SyncState (P : Type 0) : Type 0 where
  pub sync : TimeSync
  pub player : P
  pub recv_timeout : ℕ

abbrev pub set_timeout : {P : Type 0} → ℕ → SyncState P → SyncState P
set_timeout timeout s = record s {
  sync = record s.sync { timeout = timeout };
  recv_timeout = timeout / 1000;
}

-- T4 - T3 and T2 - T1, where the client sent at T1 and received at T4, the server received at T2 and sent
-- at T3.
unfoldable pub returned : BaseMessage → ℤ
unfolding micros
returned base = micros base.received -ℤ micros base.sent

unfoldable pub clock_offset : BaseMessage → TimeMessage → ℤ
unfolding micros returned
clock_offset base time = half (micros time.latency -ℤ returned base)

module _ {P : Type 0} (latencies : Latencies P) where
  -- A buffer that is older than a minute is cleared.
  unfoldable pub forget_old : SyncState P → SyncState P
  forget_old s =
      if ltb 60000000 (s.sync.now - s.sync.last_time_sync)
      then set_timeout fast (record s { player = latencies.reset s.player })
      else s

  -- The pace of the requests, by how full the buffer is.
  unfoldable pub adjust_pace : SyncState P → SyncState P
  adjust_pace s =
      let full = latencies.full s.player in
      if full && ltb s.sync.timeout normal
      then set_timeout normal s
      else if not full && ltb fast s.sync.timeout
      then set_timeout fast s
      else s

  unfoldable pub time_sync_msg_received :
      BaseMessage → TimeMessage → Bool → SyncState P → SyncState P
  unfolding forget_old adjust_pace clock_offset
  time_sync_msg_received base time received_codec_header s =
      let s' = forget_old s in
      let player =
        latencies.insert (clock_offset base time) (half (returned base +ℤ micros time.latency))
          (micros base.received) s'.player in
      let s'' = record s' {
        player = player;
        sync = record s'.sync { last_time_sync = s'.sync.now };
      } in
      if received_codec_header then adjust_pace s'' else s''

-- The packet of `time_sync_msg_cb`: `BASE_MESSAGE_SIZE + TIME_MESSAGE_SIZE` zeros, with the header in
-- front. The counter is an int, and the message's id has 16 bits.
abbrev pub time_request : ℕ → ℕ → BaseMessage
time_request id now = record {
  type = 4;
  id = id % 2 ^ 16;
  refers_to = 0;
  sent = record { sec = now / 1000000; usec = now - now / 1000000 * 1000000 };
  received = record { sec = 0; usec = 0 };
  size = 8;
}

unfoldable pub time_sync_msg_cb : ℕ → ℕ → List ℕ
time_sync_msg_cb id now = (base_message_serialize (time_request id now) (replicate 34 0) 26).1

-- `before_receive_callback`: whether a request is sent, with the time of the call.
unfoldable pub before_receive_callback : ℕ → Bool → TimeSync → Bool × TimeSync
before_receive_callback now received_codec_header sync =
    let sync' = record sync { now = now } in
    if received_codec_header && leb sync.timeout (now - sync.last_time_sync_sent)
    then (true, record sync' { last_time_sync_sent = now })
    else (false, sync')
