-- ===== src/Player/Takeover/Kept.antt =====
-- A change of the settings loses no chunk of components/lightsnapcast/player.c.
use snapclient.Base.{
  ℕ, ◌+◌, ◌≡◌, refl, ap, ◌∙◌, inl, inr, arith, List, Option, none, some, Bool, false, Bool-cases,
}
use snapclient.Rtos.{Queue, IsQueue}
use snapclient.Player.Memory.{PcmChunk}
use snapclient.Player.Settings.{SnapcastSetting}
use snapclient.Player.Chunks.{PlayerState, Drivers, destroy_pcm_queue, entries}
use snapclient.Player.Chunks.Counting.{count, queued, created-empty}
use snapclient.Player.Chunks.Drained.{destroy-owned}
use snapclient.Player.Takeover.{
  Task, player_after, new_buffer, new_format, silenced, renew, renew_after, renew_queue,
  adopt_settings,
}

module _ {Q M : Type 0} (queue : Queue PcmChunk Q) (items : Q → List PcmChunk) (drivers : Drivers M)
    (test : PcmChunk → Bool) where
  -- The chunks that pass the test and are freed or in the queue.
  abbrev pub here : PlayerState Q M → ℕ
  here s = count test s.freed + count test (queued items s.queue)

  renew-here :
      (setting : SnapcastSetting) (o : Option Q) (t : Task) (s s0 : PlayerState Q M)
      → IsQueue queue items
      → s.queue ≡ o
      → here (player_after s0 (renew queue drivers setting o t s)) ≡ here s
  unfolding count
  renew-here setting none t s s0 law e =
      let k = created-empty queue items (entries queue drivers setting) _ law refl in
      omega (arith, ap (count test) k, ap (λ o. count test (queued items o)) e)
  renew-here setting (some q) t s s0 law e = refl

  renew_after-here :
      (setting : SnapcastSetting) (t : Task) (s : PlayerState Q M)
      (r : Option (ℕ × PlayerState Q M))
      → IsQueue queue items
      → ((code : ℕ) (s' : PlayerState Q M) → r ≡ some (code, s') → here s' ≡ here s)
      → here (player_after s (renew_after queue drivers setting t r)) ≡ here s
  renew_after-here setting t s none law same = refl
  renew_after-here setting t s (some (code, s')) law same =
      renew-here setting s'.queue t s' s law refl ∙ same code s' refl

  renew_queue-here :
      (fuel : ℕ) (setting : SnapcastSetting) (t : Task) (s : PlayerState Q M)
      → IsQueue queue items
      → here (player_after s (renew_queue queue drivers fuel setting t s)) ≡ here s
  unfolding renew_queue destroy_pcm_queue
  renew_queue-here fuel setting t s law =
      elim (Bool-cases (new_buffer t.own setting t.created_with)) [
        | inl anew ↦ rw anew (
            renew_after-here setting t s (destroy_pcm_queue queue fuel s) law
              (λ code s' e. destroy-owned queue items test fuel code s s' s.queue law e refl))
        | inr same_buffer ↦ rw same_buffer (renew-here setting s.queue t s s law refl)
      ]

  pub adopt_settings-here :
      (fuel : ℕ) (setting : SnapcastSetting) (t : Task) (s : PlayerState Q M)
      → IsQueue queue items
      → here (player_after s (adopt_settings queue drivers fuel setting t s)) ≡ here s
  unfolding adopt_settings
  adopt_settings-here fuel setting t s law = elim (Bool-cases (new_format t.own setting)) [
    | inl other ↦ elim (Bool-cases (drivers.setup_i2s setting)) [
      | inl works ↦
          rw (other, works)
            (renew_queue-here fuel setting (record (silenced t) { initial_sync = false }) s law)
      | inr fails ↦ rw (other, fails) refl
    ]
    | inr same_format ↦ rw same_format (renew_queue-here fuel setting t s law)
  ]
