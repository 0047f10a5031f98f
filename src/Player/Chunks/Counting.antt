-- ===== src/Player/Chunks/Counting.antt =====
-- Where the chunks of components/lightsnapcast/player.c are, counted by a test, and that the operations on
-- the queue keep the count.
use snapclient.Base.{
  ℕ, ◌+◌, ◌&&◌, not, ◌≡◌, refl, inl, inr, Bool, true, false, Bool-cases, Option-cases, Option, none,
  some, List, [], ◌∷◌, ◌++◌, if◌then◌else◌, arith,
}
use snapclient.Rtos.{Queue, IsQueue, Sent, Received}
use snapclient.Player.Memory.{PcmChunk}
use snapclient.Player.Settings.{SnapcastSetting}
use snapclient.Player.Chunks.{
  PlayerState, Drivers, free_pcm_chunk, free_if_taken, entries, start_player, after_send,
  insert_pcm_chunk, take_chunk,
}

-- How many chunks of a list pass a test.
unfoldable pub count : (PcmChunk → Bool) → List PcmChunk → ℕ
count test [] = 0
count test (c ∷ cs) = (if test c then 1 else 0) + count test cs

count-append :
    (test : PcmChunk → Bool) (xs ys : List PcmChunk)
    → count test (xs ++ ys) ≡ count test xs + count test ys
unfolding count
count-append test [] ys = omega arith
count-append test (x ∷ xs) ys = omega (arith, count-append test xs ys)

abbrev pub to_list : Option PcmChunk → List PcmChunk
to_list none = []
to_list (some c) = c ∷ []

abbrev pub queued : {Q : Type 0} → (Q → List PcmChunk) → Option Q → List PcmChunk
queued items none = []
queued items (some q) = items q

module _ {Q M : Type 0} (items : Q → List PcmChunk) where
  -- The chunks that pass the test, among those that are freed, queued or in the hands of the task.
  abbrev pub owned : (PcmChunk → Bool) → PlayerState Q M → Option PcmChunk → ℕ
  owned test s held =
      count test s.freed + count test (queued items s.queue) + count test (to_list held)

  send-owned :
      (test : PcmChunk → Bool) (c : PcmChunk) (s : PlayerState Q M) (old : List PcmChunk)
      (r : Bool × Q)
      → Sent items c old r
      → count test (after_send c s r).1.freed + count test (queued items (after_send c s r).1.queue)
        ≡ count test s.freed + count test old + count test (c ∷ [])
  unfolding count free_pcm_chunk after_send
  send-owned test c s old (true, q) e = rw e (omega (arith, count-append test old (c ∷ [])))
  send-owned test c s old (false, q) e = rw e (omega arith)

pub created-empty :
    {Q : Type 0} (queue : Queue PcmChunk Q) (items : Q → List PcmChunk) (n : ℕ) (o : Option Q)
    → IsQueue queue items
    → queue.create n ≡ o
    → queued items o ≡ []
created-empty queue items n none law e = refl
created-empty queue items n (some q) law e = law.created n q e

module _ {Q M : Type 0} (queue : Queue PcmChunk Q) (items : Q → List PcmChunk) where
  -- A start of the player touches no chunk.
  start_player-keeps :
      (drivers : Drivers M) (setting : SnapcastSetting) (s : PlayerState Q M)
      → IsQueue queue items
      → ((start_player queue drivers setting s).1.freed ≡ s.freed)
        × (queued items (start_player queue drivers setting s).1.queue ≡ queued items s.queue)
  unfolding start_player
  start_player-keeps drivers setting s law = elim (Bool-cases s.started) [
    | inl on ↦ rw on (refl, refl)
    | inr off ↦ elim (Bool-cases (drivers.setup_i2s setting)) [
      | inr fails ↦ rw (off, fails) (refl, refl)
      | inl works ↦ elim (Option-cases s.queue) [
        | inl n ↦
            rw (off, works, n)
              (
                refl,
                created-empty queue items (entries queue drivers s.settings.current) _ law refl,
              )
        | inr (q, e) ↦ rw (off, works, e) (refl, refl)
      ]
    ]
  ]

  pub insert-owned :
      (drivers : Drivers M) (full : Bool) (c : PcmChunk) (test : PcmChunk → Bool)
      (s : PlayerState Q M)
      → IsQueue queue items
      → let t = (insert_pcm_chunk queue drivers full c s).1 in
        count test t.freed + count test (queued items t.queue)
        ≡ count test s.freed + count test (queued items s.queue) + count test (c ∷ [])
  unfolding insert_pcm_chunk count free_pcm_chunk
  insert-owned drivers full c test s law = elim (Option-cases s.queue) [
    | inl n ↦ elim (Bool-cases (not s.settings.current.muted && s.settings.got_settings)) [
      | inl begins ↦
          let (f, q) =
            start_player-keeps drivers s.settings.current
              (free_pcm_chunk c (record s { queue = none })) law in
          rw (n, begins, f, q) (omega arith)
      | inr waits ↦ rw (n, waits) (omega arith)
    ]
    | inr (q, e) ↦ elim (Bool-cases full) [
      | inl ready ↦
          rw (e, ready) (send-owned items test c s (items q) (queue.send c q) (law.sent c q))
      | inr early ↦ rw (e, early) (omega arith)
    ]
  ]

module _ {Q M : Type 0} (queue : Queue PcmChunk Q) (items : Q → List PcmChunk) where
  pub received-owned :
      (test : PcmChunk → Bool) (s : PlayerState Q M) (old : List PcmChunk) (c : Option PcmChunk)
      (q : Q)
      → Received items old (c, q)
      → count test (items q) + count test (to_list c) ≡ count test old
  unfolding count
  received-owned test s old none q (e, f) = rw (e, f) (omega arith)
  received-owned test s old (some c) q e = rw e (omega arith)

  pub take-owned :
      (test : PcmChunk → Bool) (held : Option PcmChunk) (s : PlayerState Q M)
      → IsQueue queue items
      → owned items test (take_chunk queue held s).1 (take_chunk queue held s).0
        ≡ owned items test s held
  unfolding count
  take-owned test (some c) s law = refl
  take-owned test none s law = elim (Option-cases s.queue) [
    | inl n ↦ rw n
    | inr (q, e) ↦
        let (c, q') = queue.receive q in
        let k = received-owned test s (items q) c q' (law.received q) in rw e (omega (arith, k))
  ]

  pub free-owned :
      (test : PcmChunk → Bool) (held : Option PcmChunk) (s : PlayerState Q M)
      → owned items test (free_if_taken held s) none ≡ owned items test s held
  unfolding count free_pcm_chunk
  free-owned test none s = refl
  free-owned test (some c) s = omega arith
