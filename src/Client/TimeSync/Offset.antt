-- ===== src/Client/TimeSync/Offset.antt =====
-- What the client learns of the server's clock from an exchange in main/main.c.
use snapclient.Base.{ℕ, ◌≡◌, ap, ◌∙◌, ◌++◌, replicate, arith, inl, inr}
use snapclient.Base.Int.{ℤ, ◌+ℤ◌, ◌-ℤ◌, pos_part, neg_part, eq_of_parts, +ℤ_parts, -ℤ_parts}
use snapclient.Message.{BaseMessage, TimeMessage}
use snapclient.Message.Wire.{base_message_bytes, base_message_serialize_lem}
use snapclient.Client.TimeSync.{
  micros, half, returned, clock_offset, time_request, time_sync_msg_cb,
}

half-twice : (d : ℤ) → half (d +ℤ d) ≡ d
unfolding ◌+ℤ◌
half-twice d = ground arith

offset_twice : (l r s d k : ℤ) → l ≡ k +ℤ d → r +ℤ d ≡ s +ℤ k → l -ℤ (r -ℤ s) ≡ d +ℤ d
offset_twice l r s d k e f = eq_of_parts (l -ℤ (r -ℤ s)) (d +ℤ d) (
    omega (
      arith,
      -ℤ_parts l (r -ℤ s),
      -ℤ_parts r s,
      +ℤ_parts d d,
      +ℤ_parts k d,
      +ℤ_parts r d,
      +ℤ_parts s k,
      ap pos_part e,
      ap neg_part e,
      ap pos_part f,
      ap neg_part f,
    ))

-- If the server's clock is `d` ahead of the client's and a message takes as long to the server as back,
-- namely `delay`, then `d` is what the exchange yields.
pub clock_offset_lem :
    (base : BaseMessage) (time : TimeMessage) (d delay : ℤ)
    → micros time.latency ≡ delay +ℤ d
    → micros base.received +ℤ d ≡ micros base.sent +ℤ delay
    → clock_offset base time ≡ d
unfolding clock_offset returned
clock_offset_lem base time d delay there back =
    ap half (
      offset_twice (micros time.latency) (micros base.received) (micros base.sent) d delay there
        back)
    ∙ half-twice d

-- A request is the header of a time message with the time of its sending, and zeros for the times that
-- the server is to fill in.
pub time_sync_msg_cb_lem :
    (id now : ℕ)
    → time_sync_msg_cb id now ≡ base_message_bytes (time_request id now) ++ replicate 8 0
unfolding time_sync_msg_cb
time_sync_msg_cb_lem id now =
    elim (base_message_serialize_lem (time_request id now) (replicate 34 0) 26 (omega arith)
      (omega arith)) [ inl (_, e) ↦ rw (time_sync_msg_cb, e) | inr (lt, _) ↦ absurd (omega arith) ]
