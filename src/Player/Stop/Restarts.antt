-- ===== src/Player/Stop/Restarts.antt =====
-- Whether the player of components/lightsnapcast/player.c can start again behind its end.
use snapclient.Base.{ℕ, ◌<◌, ◌≡◌, refl, ap, ◌∙◌, List, [], ◌∷◌, length, none, some, true, false}
use snapclient.Base.Int.{pos, negsuc}
use snapclient.Rtos.{Queue, IsQueue}
use snapclient.Player.Memory.{PcmChunk}
use snapclient.Player.Settings.{SnapcastSetting, SettingsState}
use snapclient.Player.Chunks.{PlayerState, Drivers, free_pcm_chunk, start_player, entries}
use snapclient.Player.Chunks.Drained.{free_all, destroy_pcm_queue_lem}
use snapclient.Player.Channel.{end_channel, my_i2s_channel_disable, delete_channel}
use snapclient.Player.Timer.{tg0_timer_deinit}
use snapclient.Player.Stop.{
  Devices, without_task, without_changed, ended, deinited, end_task, deinit_player,
}

module _ {Q M : Type 0} where
  -- To free chunks leaves the settings alone, and does not look at them.
  free_all-settings :
      (cs : List PcmChunk) (s : PlayerState Q M) (x : SettingsState M)
      → free_all cs (record s { settings = x }) ≡ record (free_all cs s) { settings = x }
  unfolding free_all free_pcm_chunk
  free_all-settings [] s x = refl
  free_all-settings (c ∷ cs) s x = free_all-settings cs (free_pcm_chunk c s) x

  free_all-started :
      (cs : List PcmChunk) (s : PlayerState Q M) → (free_all cs s).started ≡ s.started
  unfolding free_all free_pcm_chunk
  free_all-started [] s = refl
  free_all-started (c ∷ cs) s = free_all-started cs (free_pcm_chunk c s)

  -- What the end of the task leaves of the player.
  abbrev pub stopped : List PcmChunk → PlayerState Q M → PlayerState Q M
  stopped cs s = record (free_all cs s) {
    queue = none;
    started = false;
    settings = record s.settings { changed = none; has_task = false };
  }

module _ {Q M : Type 0} (queue : Queue PcmChunk Q) (items : Q → List PcmChunk) where
  refused :
      (drivers : Drivers M) (setting : SnapcastSetting) (s : PlayerState Q M)
      → s.started ≡ true
      → start_player queue drivers setting s ≡ (negsuc 0, s)
  unfolding start_player
  refused drivers setting s e = rw e refl

  -- When the player's task ends for want of chunks, each chunk of the queue is freed, in its order, both queues are
  -- deleted, and a later `start_player` with a driver that can be set up starts the player with queues that are new.
  pub end_task-restarts :
      (fuel : ℕ) (q : Q) (d : Devices Q M) (drivers : Drivers M) (setting : SnapcastSetting)
      → IsQueue queue items
      → d.player.queue ≡ some q
      → length (items q) < fuel
      → drivers.setup_i2s setting ≡ true
      → let s = stopped (items q) d.player in
        (end_task queue fuel d
          ≡ some (record {
            player = s;
            channel = end_channel d.channel;
            timer = tg0_timer_deinit d.timer;
          }))
        × (start_player queue drivers setting s ≡ (
          pos 0,
          record s {
            started = true;
            settings = record s.settings { changed = drivers.create_changed; has_task = true };
            queue = queue.create (entries queue drivers s.settings.current);
          },
        ))
  unfolding end_task start_player
  end_task-restarts fuel q d drivers setting law e enough ready = (
    ap (ended (record d { channel = end_channel d.channel })) (
        destroy_pcm_queue_lem queue items fuel q (without_changed d.player) law e enough
        ∙ ap (λ (s : PlayerState Q M). some (1, record s { queue = none }))
            (free_all-settings (items q) d.player (record d.player.settings { changed = none }))),
    rw ready refl,
  )

  -- If the player's task has not ended by itself when the ten seconds of `deinit_player` are over, then the chunks of
  -- the queue are freed, but every later `start_player` is refused and changes nothing, since `playerstarted` is
  -- still set.
  pub deinit_player-refused :
      (fuel : ℕ) (q : Q) (during : Devices Q M → Devices Q M) (d : Devices Q M)
      (drivers : Drivers M) (setting : SnapcastSetting)
      → IsQueue queue items
      → let d' = during (record d { channel = my_i2s_channel_disable d.channel }) in
        d'.player.queue ≡ some q
        → length (items q) < fuel
        → d'.player.started ≡ true
        → let s = record (free_all (items q) (without_task d'.player)) { queue = none } in
          (deinit_player queue fuel during d
            ≡ some (
              1,
              record {
                player = s;
                channel = delete_channel d'.channel;
                timer = tg0_timer_deinit d'.timer;
              },
            ))
          × (start_player queue drivers setting s ≡ (negsuc 0, s))
  unfolding deinit_player
  deinit_player-refused fuel q during d drivers setting law e enough runs =
      let d' = during (record d { channel = my_i2s_channel_disable d.channel }) in
      let s = record (free_all (items q) (without_task d'.player)) { queue = none } in
      (
        ap (deinited (record d' { channel = delete_channel d'.channel }))
            (destroy_pcm_queue_lem queue items fuel q (without_task d'.player) law e enough),
        refused drivers setting s (free_all-started (items q) (without_task d'.player) ∙ runs),
      )
