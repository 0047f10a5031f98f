-- ===== src/Client/TimeSync/Pace.antt =====
-- How often main/main.c asks the server for its time.
use snapclient.Base.{
  ℕ, ◌+◌, ◌-◌, ◌/◌, ◌≤◌, ◌<◌, ◌≡◌, refl, sym, ap, ◌∙◌, arith, ◌⊎◌, inl, inr, Bool, true, false, not,
  ◌&&◌, ltb, leb, Bool-cases, if◌then◌else◌,
}
use snapclient.Base.Int.{◌+ℤ◌}
use snapclient.Message.{BaseMessage, TimeMessage}
use snapclient.Client.TimeSync.{
  TimeSync, SyncState, Latencies, fast, normal, forget_old, adjust_pace, time_sync_msg_received,
  micros, half, returned, clock_offset, before_receive_callback,
}

-- The pace is one of the two, and the receive waits no longer than it.
pub record IsPaced {P : Type 0} (s : SyncState P) : Type 0 where
  pub pace : (s.sync.timeout ≡ fast) ⊎ (s.sync.timeout ≡ normal)
  pub limit : s.recv_timeout ≡ s.sync.timeout / 1000

-- The pace that belongs to a buffer that is full or not.
abbrev pub pace_of : Bool → ℕ
pace_of true = normal
pace_of false = fast

-- While a codec header is known, requests are not closer to each other than the pace, and one goes out
-- at the first receive when the pace has passed.
pub before_receive_callback_cases :
    (now : ℕ) (header : Bool) (sync : TimeSync)
    → sync.last_time_sync_sent ≤ now
    → let (sent, after) = before_receive_callback now header sync in
      ((sent ≡ true)
        × (header ≡ true)
        × (sync.last_time_sync_sent + sync.timeout ≤ now)
        × (after.last_time_sync_sent ≡ now))
      ⊎ ((sent ≡ false)
          × ((header ≡ false) ⊎ (now < sync.last_time_sync_sent + sync.timeout))
          × (after.last_time_sync_sent ≡ sync.last_time_sync_sent))
unfolding before_receive_callback
before_receive_callback_cases now true sync h =
    elim (Bool-cases (leb sync.timeout (now - sync.last_time_sync_sent))) [
      | inl due ↦ rw due (inl (refl, refl, ground (arith, due), refl))
      | inr early ↦ rw early (inr (refl, inr (ground (arith, early)), refl))
    ]
before_receive_callback_cases now false sync h = inr (refl, inl refl, refl)

module _ {P : Type 0} (latencies : Latencies P) where
  adjust_pace-IsPaced :
      (s : SyncState P)
      → IsPaced s
      → IsPaced (adjust_pace latencies s)
        × ((adjust_pace latencies s).sync.timeout ≡ pace_of (latencies.full s.player))
  unfolding adjust_pace
  adjust_pace-IsPaced s h = elim (Bool-cases (latencies.full s.player)) [
    | inl f ↦ elim h.pace [
      | inl e ↦
          let t : ltb s.sync.timeout normal ≡ true = ground (arith, e) in
          rw (f, t) (record { pace = inr refl; limit = refl }, refl)
      | inr e ↦ let t : ltb s.sync.timeout normal ≡ false = ground (arith, e) in rw (f, t) (h, e)
    ]
    | inr f ↦ elim h.pace [
      | inl e ↦ let t : ltb fast s.sync.timeout ≡ false = ground (arith, e) in rw (f, t) (h, e)
      | inr e ↦
          let t : ltb fast s.sync.timeout ≡ true = ground (arith, e) in
          rw (f, t) (record { pace = inl refl; limit = refl }, refl)
    ]
  ]

  adjust_pace_keeps :
      (s : SyncState P)
      → ((adjust_pace latencies s).player ≡ s.player)
        × ((adjust_pace latencies s).sync.last_time_sync ≡ s.sync.last_time_sync)
  unfolding adjust_pace
  adjust_pace_keeps s = elim (Bool-cases (latencies.full s.player && ltb s.sync.timeout normal)) [
    | inl a ↦ rw a (refl, refl)
    | inr a ↦ elim (Bool-cases (not (latencies.full s.player) && ltb fast s.sync.timeout)) [
      | inl b ↦ rw (a, b) (refl, refl)
      | inr b ↦ rw (a, b) (refl, refl)
    ]
  ]

  forget_old_keeps : (s : SyncState P) → (forget_old latencies s).sync.now ≡ s.sync.now
  unfolding forget_old
  forget_old_keeps s = elim (Bool-cases (ltb 60000000 (s.sync.now - s.sync.last_time_sync))) [
    | inl old ↦ rw old
    | inr new ↦ rw new
  ]

  forget_old-IsPaced : (s : SyncState P) → IsPaced s → IsPaced (forget_old latencies s)
  unfolding forget_old
  forget_old-IsPaced s h = elim (Bool-cases (ltb 60000000 (s.sync.now - s.sync.last_time_sync))) [
    | inl old ↦ rw old (record { pace = inl refl; limit = refl })
    | inr new ↦ rw new h
  ]

  -- After every answer of the server the pace is again one of the two, with the limit of a receive that
  -- belongs to it; and with a codec header it is the normal one exactly if the buffer is full.
  pub time_sync_msg_received-IsPaced :
      (base : BaseMessage) (time : TimeMessage) (header : Bool) (s : SyncState P)
      → IsPaced s
      → let t = time_sync_msg_received latencies base time header s in
        IsPaced t
        × ((header ≡ false) ⊎ (t.sync.timeout ≡ pace_of (latencies.full t.player)))
        × (t.sync.last_time_sync ≡ s.sync.now)
  unfolding time_sync_msg_received
  time_sync_msg_received-IsPaced base time header s h =
      let s1 = forget_old latencies s in
      let h1 = forget_old-IsPaced s h in
      let s2 = record s1 {
        player =
            latencies.insert (clock_offset base time) (half (returned base +ℤ micros time.latency))
              (micros base.received) s1.player;
        sync = record s1.sync { last_time_sync = s1.sync.now };
      } in
      let h2 : IsPaced s2 = record { pace = h1.pace; limit = h1.limit } in
      let (k, e) = adjust_pace-IsPaced s2 h2 in
      let (p, l) = adjust_pace_keeps s2 in
      paced header s2 s.sync.now h2 k (e ∙ ap (λ (x : P). pace_of (latencies.full x)) (sym p)) l
        (forget_old_keeps s)
    where
      paced :
          (header : Bool) (s2 : SyncState P) (now : ℕ)
          → IsPaced s2
          → IsPaced (adjust_pace latencies s2)
          → (adjust_pace latencies s2).sync.timeout
            ≡ pace_of (latencies.full (adjust_pace latencies s2).player)
          → (adjust_pace latencies s2).sync.last_time_sync ≡ s2.sync.last_time_sync
          → s2.sync.last_time_sync ≡ now
          → let t = if header then adjust_pace latencies s2 else s2 in
            IsPaced t
            × ((header ≡ false) ⊎ (t.sync.timeout ≡ pace_of (latencies.full t.player)))
            × (t.sync.last_time_sync ≡ now)
      paced true s2 now h2 k e l n = (k, inr e, l ∙ n)
      paced false s2 now h2 k e l n = (h2, inl refl, n)
