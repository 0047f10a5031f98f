-- ===== src/Examples/Sound.antt =====
-- The sound on concrete inputs.
use snapclient.Base.{
  ℕ, ◌≡◌, ◌-◌, refl, List, [], ◌∷◌, ◌++◌, length, take, min, Option, some, none, true, false, arith,
}
use snapclient.Base.Int.{ℤ, pos, negsuc, ◌+ℤ◌}
use snapclient.Player.Memory.{PcmChunk, empty_chunk, fragment_of}
use snapclient.Player.Chunks.{start_player, entries}
use snapclient.Player.Chunks.Drained.{free_all}
use snapclient.Player.Timer.{tg0_timer_deinit}
use snapclient.Player.Channel.{
  Channel, setup_channel, my_i2s_channel_enable, my_i2s_channel_disable, end_channel,
  delete_channel,
}
use snapclient.Player.Channel.Legal.{Taken, phase_of, Reach-Legal}
use snapclient.Player.Channel.Legal
use snapclient.Player.Apll.{Apll}
use snapclient.Player.Dma.{dma_buffers}
use snapclient.Player.Dma.Bounds.{Divided, dma_buffers-Divided}
use snapclient.Player.Stop.{Devices, end_task, deinit_player, without_task}
use snapclient.Player.Stop.Restarts.{stopped, end_task-restarts, deinit_player-refused}
use snapclient.Player.Playback.{I2s, IsI2s, Line, played, writing, frames_to_bytes, write_chunk}
use snapclient.Player.Playback.Heard.{Wrote, heard, write_chunk-Wrote}
use snapclient.Player.Silence.{write_silence}
use snapclient.Player.Silence.Ends.{write_silence-never}
use snapclient.Player.Steer.{insertion, Playing, error_us, buffer_time, steer}
use snapclient.Player.Steer.First.{first_write, error_us-first}
use snapclient.Player.Steer.Bounded.{Steered, steer-Steered}
use snapclient.Player.Sound.{start_sound}
use snapclient.Player.Sound.InOrder.{Begins, start_sound-Begins}
use snapclient.Examples.Player.{
  two_places, two_places-IsQueue, whole_setting, playing, before_sound, idle_task, last_of,
  two_chunks, working,
}

-- A driver with what it was given and the room in its DMA buffers.
pub record Wire : Type 0 where
  pub sent : List ℕ
  pub room : ℕ

abbrev wires : I2s Wire
wires = record {
  write = λ bytes w. (true, length bytes, record w { sent = w.sent ++ bytes });
  preload = λ bytes w. (
    min (length bytes) w.room,
    record {
      sent = w.sent ++ take (min (length bytes) w.room) bytes;
      room = w.room - length bytes;
    },
  );
}

wires-IsI2s : IsI2s wires (λ w. w.sent) (λ w. w.room) (λ w. true)
wires-IsI2s = record {
  written = λ bytes w r. (record w { sent = w.sent ++ bytes }, refl, refl, refl);
  preloaded = λ bytes w. (
    record {
      sent = w.sent ++ take (min (length bytes) w.room) bytes;
      room = w.room - length bytes;
    },
    refl,
    refl,
    refl,
  );
}

abbrev one_line : Line Wire
one_line = record {
  channel = record { sent = []; room = 12 };
  samples_written = 0;
  chunk_start = pos 0;
  dir_insert_sample = negsuc 0;
}

abbrev two_frames : List ℕ
two_frames = 1 ∷ 2 ∷ 3 ∷ 4 ∷ 5 ∷ 6 ∷ 7 ∷ 8 ∷ []

write_chunk-Wrote_example :
    (l' : Line Wire) × (write_chunk wires 1 whole_setting two_frames 0
        (length two_frames - 0)
        []
        one_line
      ≡ played l')
    × Wrote wires
        (λ w. w.sent)
        (λ w. w.room)
        (λ w. true)
        whole_setting
        one_line
        (heard (frames_to_bytes whole_setting) (negsuc 0) two_frames 0 ++ [])
        l'
    × (l'.dir_insert_sample ≡ pos 0)
unfolding frames_to_bytes
write_chunk-Wrote_example =
    write_chunk-Wrote wires (λ w. w.sent) (λ w. w.room) (λ w. true) whole_setting 1 two_frames 0 []
      one_line wires-IsI2s refl (omega arith) (omega arith) refl tt (omega arith)

write_silence-never_example : write_silence wires 100 whole_setting 6 one_line ≡ writing
write_silence-never_example =
    write_silence-never wires (λ w. w.sent) (λ w. w.room) (λ w. true) whole_setting 100 6 one_line
      wires-IsI2s refl (λ e. cc) (omega arith)

dma_buffers-Divided_example : Divided 4608 (dma_buffers 5000 4608)
dma_buffers-Divided_example =
    dma_buffers-Divided 5000 4608 (omega arith) (omega arith) (omega arith)

abbrev fresh_apll : Apll
fresh_apll = record { current_dir = pos 0; set_to = none }

-- The channel is set up, used, and set up anew.
abbrev used_channel : Channel
used_channel = setup_channel true (
    my_i2s_channel_enable (
      setup_channel true
        (record { has_chan = false; i2s_enabled = false; primed = false; calls = [] })))

used_channel-Reach : Legal.Reach used_channel
used_channel-Reach =
    Legal.Reach.set_up true (Legal.Reach.enabled (Legal.Reach.set_up true Legal.Reach.start))

Reach-Legal_example :
    Taken used_channel.calls (phase_of used_channel.has_chan used_channel.i2s_enabled)
Reach-Legal_example = Reach-Legal used_channel used_channel-Reach

abbrev devices : Devices (List PcmChunk) (Option ℕ)
devices = record { player = playing; channel = used_channel; timer = before_sound }

end_task-restarts_example :
    let s = stopped two_chunks playing in
    (end_task two_places 3 devices
      ≡ some (record {
        player = s;
        channel = end_channel used_channel;
        timer = tg0_timer_deinit before_sound;
      }))
    × (start_player two_places working whole_setting s ≡ (
      pos 0,
      record s {
        started = true;
        settings = record s.settings { changed = working.create_changed; has_task = true };
        queue = two_places.create (entries two_places working s.settings.current);
      },
    ))
end_task-restarts_example =
    end_task-restarts two_places (λ q. q) 3 two_chunks devices working whole_setting
      two_places-IsQueue refl (omega arith) refl

deinit_player-refused_example :
    let channel = my_i2s_channel_disable used_channel in
    let s = record (free_all two_chunks (without_task playing)) { queue = none } in
    (deinit_player two_places 3 (λ d. d) devices
      ≡ some (
        1,
        record {
          player = s;
          channel = delete_channel channel;
          timer = tg0_timer_deinit before_sound;
        },
      ))
    × (start_player two_places working whole_setting s ≡ (negsuc 0, s))
deinit_player-refused_example =
    deinit_player-refused two_places (λ q. q) 3 two_chunks (λ d. d) devices working whole_setting
      two_places-IsQueue refl (omega arith) refl

abbrev framed : List ℕ → PcmChunk
framed bytes = record empty_chunk {
  total_size = length bytes;
  fragments = fragment_of (length bytes) (some bytes);
}

abbrev at_play : Playing (List PcmChunk) (Option ℕ) Wire ℤ
at_play = record {
  player = record playing { queue = some (framed two_frames ∷ framed (0 ∷ two_frames) ∷ []) };
  task = record idle_task { own = whole_setting };
  timer = before_sound;
  line = record one_line { dir_insert_sample = pos 0 };
  playback_start = pos 0;
  dac_time = pos 0;
  dma_frames = 3;
  held = none;
  short_filter = pos 0;
  mini_filter = pos 0;
  dir = pos 0;
  inserted = pos 0;
  speed = fresh_apll;
}

steer-Steered_example :
    let age = error_us (pos 0) at_play in
    Steered two_places last_of age age true at_play
      (steer two_places last_of insertion (some (pos 0)) at_play)
steer-Steered_example = steer-Steered two_places last_of (pos 0) at_play

-- With a chunk stamped 0 and a buffer of a second the sound begins half a millisecond late.
error_us-first_example :
    error_us (pos 0) (first_write 4 one_line (record at_play { playback_start = pos 1000500 }))
    ≡ pos 500 +ℤ buffer_time whole_setting 3 +ℤ buffer_time whole_setting 3
unfolding ◌+ℤ◌ snapclient.Base.Int.◌*ℤ◌
error_us-first_example =
    error_us-first 4 (pos 0) (pos 500) one_line (record at_play { playback_start = pos 1000500 })
      refl

abbrev with_chunks : Playing (List PcmChunk) (Option ℕ) Wire ℤ
with_chunks = record at_play { player = record playing { queue = some (framed two_frames ∷ []) } }

-- The buffers take three frames of the four that there are.
start_sound-Begins_example :
    Begins two_places
      (λ q. q)
      wires
      (λ w. w.sent)
      (λ w. w.room)
      (λ w. true)
      last_of
      (λ w. w)
      2
      (frames_to_bytes with_chunks.task.own)
      with_chunks.line.dir_insert_sample
      (framed two_frames ∷ framed two_frames ∷ [])
      with_chunks.player
      one_line.channel
      (start_sound two_places wires last_of 2 insertion
        (λ w. w)
        100
        (pos 0)
        (framed two_frames)
        with_chunks)
unfolding frames_to_bytes
start_sound-Begins_example =
    start_sound-Begins two_places (λ q. q) wires (λ w. w.sent) (λ w. w.room) (λ w. true) last_of
      (λ w. w) insertion 1 100 (pos 0) (framed two_frames) (framed two_frames ∷ []) with_chunks
      two_places-IsQueue wires-IsI2s (λ j. (refl, refl)) refl (refl, (refl, tt)) (refl, (refl, tt))
      refl (omega arith) (omega arith) (omega arith) (omega arith)
