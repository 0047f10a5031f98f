-- ===== src/Player/Takeover/Renewed.antt =====
-- The queue of chunks of components/lightsnapcast/player.c after a change of the settings.
use snapclient.Base.{
  ℕ, ◌<◌, ◌==◌, ◌≡◌, refl, ap, ◌∙◌, ◌⊎◌, inl, inr, List, [], some, Bool, true, false, Bool-cases,
  ◌||◌, not, length, if◌then◌else◌,
}
use snapclient.Rtos.{Queue, IsQueue}
use snapclient.Player.Memory.{PcmChunk}
use snapclient.Player.Settings.{SnapcastSetting}
use snapclient.Player.Chunks.{PlayerState, Drivers, destroy_pcm_queue, entries}
use snapclient.Player.Chunks.Drained.{free_all, destroy_pcm_queue_lem}
use snapclient.Player.Takeover.{
  Task, goes_on, new_buffer, new_format, silenced, settled, renew, renew_after, renew_queue,
  adopt_settings,
}

-- The queue is the one that it was, or a new one, for which every chunk of the old one was freed.
abbrev pub Renewed :
    {Q M : Type 0} → (Q → List PcmChunk) → Bool → Q → Q → PlayerState Q M → PlayerState Q M → Type 0
Renewed items renews q q' s s' =
    ((renews ≡ false) × (s'.queue ≡ some q) × (s'.freed ≡ s.freed))
    ⊎ ((renews ≡ true)
        × (s'.queue ≡ some q')
        × (items q' ≡ [])
        × (s'.freed ≡ (free_all (items q) s).freed))

settled-own : (setting : SnapcastSetting) (t : Task) → (settled setting t).own ≡ setting
settled-own setting t =
    elim (Bool-cases (new_format t.own setting || not (t.own.buf_ms == setting.buf_ms))) [
      | inl anew ↦ rw anew refl
      | inr same_sound ↦ rw same_sound refl
    ]

module _ {Q M : Type 0} (queue : Queue PcmChunk Q) (items : Q → List PcmChunk)
    (drivers : Drivers M) where
  renew_queue-Renewed :
      (fuel : ℕ) (setting : SnapcastSetting) (t : Task) (s : PlayerState Q M) (q q' : Q)
      → IsQueue queue items
      → s.queue ≡ some q
      → length (items q) < fuel
      → queue.create (entries queue drivers setting) ≡ some q'
      → (t' : Task) × (s' : PlayerState Q M) × (renew_queue queue drivers fuel setting t s
          ≡ goes_on t' s')
        × (t'.own ≡ setting)
        × Renewed items (new_buffer t.own setting t.created_with) q q' s s'
  unfolding renew_queue
  renew_queue-Renewed fuel setting t s q q' law e h created =
      elim (Bool-cases (new_buffer t.own setting t.created_with)) [
        | inl anew ↦
            let gone = destroy_pcm_queue_lem queue items fuel q s law e h in
            let t' = record t { created_with = setting.chk_in_frames } in
            (
              settled setting t',
              record (free_all (items q) s) {
                queue = queue.create (entries queue drivers setting);
              },
              ap
                    (λ b.
                      if b
                      then renew_after queue drivers setting t (destroy_pcm_queue queue fuel s)
                      else renew queue drivers setting s.queue t s)
                    anew
                  ∙ ap (renew_after queue drivers setting t) gone,
              settled-own setting t',
              inr (anew, created, law.created (entries queue drivers setting) q' created, refl),
            )
        | inr same_buffer ↦ (
          settled setting t,
          s,
          ap
                (λ b.
                  if b
                  then renew_after queue drivers setting t (destroy_pcm_queue queue fuel s)
                  else renew queue drivers setting s.queue t s)
                same_buffer
              ∙ ap (λ o. renew queue drivers setting o t s) e,
          settled-own setting t,
          inl (same_buffer, e, refl),
        )
      ]

  -- The task goes on with the new settings, if the driver takes them, there is memory for a queue, and the loop
  -- that empties the old one has more rounds than there are chunks. There is a queue: the old one with its
  -- chunks, or, where the buffer has another length or the chunks are shorter, an empty one for which the chunks
  -- of the old one were freed.
  pub adopt_settings-Renewed :
      (fuel : ℕ) (setting : SnapcastSetting) (t : Task) (s : PlayerState Q M) (q q' : Q)
      → IsQueue queue items
      → s.queue ≡ some q
      → length (items q) < fuel
      → queue.create (entries queue drivers setting) ≡ some q'
      → drivers.setup_i2s setting ≡ true
      → (t' : Task) × (s' : PlayerState Q M) × (adopt_settings queue drivers fuel setting t s
          ≡ goes_on t' s')
        × (t'.own ≡ setting)
        × Renewed items (new_buffer t.own setting t.created_with) q q' s s'
  unfolding adopt_settings
  adopt_settings-Renewed fuel setting t s q q' law e h created works =
      elim (Bool-cases (new_format t.own setting)) [
        | inl other ↦
            rw (other, works)
              (renew_queue-Renewed fuel setting (record (silenced t) { initial_sync = false }) s q
                q' law e h created)
        | inr same_format ↦
            rw same_format (renew_queue-Renewed fuel setting t s q q' law e h created)
      ]
