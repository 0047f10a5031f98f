-- ===== src/Examples/Player.antt =====
-- The player's settings and its queue on concrete inputs.
use snapclient.Base.{
  ℕ, suc, ◌≡◌, ◌⊎◌, ◌+◌, refl, List, [], ◌∷◌, ◌++◌, length, Option, some, none, true, false, ltb,
  if◌then◌else◌, arith,
}
use snapclient.Rtos.{Mailbox, IsMailbox, Queue, IsQueue, Sent, Received}
use snapclient.Player.Memory.{PcmChunk, empty_chunk}
use snapclient.Player.Settings.{
  SnapcastSetting, SettingsState, can_take, zero_setting, set, notify, access, receive_changed,
}
use snapclient.Player.Settings.Taken.{look_on, take_settings-Reach}
use snapclient.Player.Settings.Informed
use snapclient.Player.Chunks.{PlayerState, Drivers, destroy_pcm_queue, insert_pcm_chunk}
use snapclient.Player.Chunks.Counting.{count, to_list, queued}
use snapclient.Player.Chunks.Drained.{free_all, destroy_pcm_queue_lem}
use snapclient.Player.Chunks.Owned.{Life, Reach-owned}
use snapclient.Player.Chunks.Owned
use snapclient.Base.Int.{ℤ, pos, ◌+ℤ◌}
use snapclient.Player.Clock.{MedianFilter, Clock, at, unknown, player_latency_insert, server_now}
use snapclient.Player.Clock.Known.{IsOneOf, server_now-IsKnown}
use snapclient.Player.Clock.Known
use snapclient.Player.Timer.{Timer, my_gptimer_stop, tg0_timer1_start, tg0_timer_init}
use snapclient.Player.Timer.Legal.{Taken, phase_of, Reach-Taken}
use snapclient.Player.Timer.Legal
use snapclient.Player.Takeover.{Task, adopt_settings, goes_on, new_buffer}
use snapclient.Player.Takeover.Renewed.{Renewed, adopt_settings-Renewed}
use snapclient.Player.Sync.{Sounding}

-- A queue of at most two chunks.
abbrev pub two_places : Queue PcmChunk (List PcmChunk)
two_places = record {
  create = λ n. some [];
  send = λ c q. if ltb (length q) 2 then (true, q ++ c ∷ []) else (false, q);
  receive = λ q. elim q [ [] ↦ (none, []) | c ∷ cs ↦ (some c, cs) ];
  waiting = λ q. length q;
}

two_places-Sent : (c : PcmChunk) (q : List PcmChunk) → Sent (λ q. q) c q (two_places.send c q)
two_places-Sent c [] = refl
two_places-Sent c (a ∷ []) = refl
two_places-Sent c (a ∷ b ∷ q) =
    let k : ltb (suc (suc (length q))) 2 ≡ false = ground arith in rw k refl

two_places-Received : (q : List PcmChunk) → Received (λ q. q) q (two_places.receive q)
two_places-Received [] = (refl, refl)
two_places-Received (c ∷ cs) = refl

empty_of : (n : ℕ) (q : List PcmChunk) → two_places.create n ≡ some q → q ≡ []
empty_of n q e = cc

pub two_places-IsQueue : IsQueue two_places (λ q. q)
two_places-IsQueue = record {
  created = empty_of;
  sent = two_places-Sent;
  received = two_places-Received;
  counted = λ q. refl;
}

abbrev pub one_note : Mailbox ℕ (Option ℕ)
one_note = record {
  overwrite = λ n q. some n;
  receive = λ q. elim q [ none ↦ none | some n ↦ some (n, none) ];
}

one_note-IsMailbox : IsMailbox one_note
one_note-IsMailbox = record { holds_one = λ n q. (none, refl, refl) }

abbrev pub whole_setting : SnapcastSetting
whole_setting = record zero_setting {
  buf_ms = 1000;
  chk_in_frames = 1152;
  sr = 48000;
  ch = 2;
  bits = 16;
}

abbrev pub waiting_player : SettingsState (Option ℕ)
waiting_player = record {
  current = zero_setting;
  got_settings = false;
  has_task = true;
  changed = some none;
}

-- A setting is sent that the player's task does not know yet; this task looks for news before it is notified.
abbrev told_player : SettingsState (Option ℕ)
told_player = access one_note notify (access one_note (set whole_setting) waiting_player)

told_player-Reach :
    Informed.Reach one_note none zero_setting [] whole_setting false zero_setting told_player
unfolding receive_changed
told_player-Reach = Informed.Reach.one (
    Informed.Reach.receive
      (Informed.Reach.one (Informed.Reach.call whole_setting (Informed.Reach.start false))))

take_settings-Reach_example :
    let (own', s') = look_on one_note false zero_setting told_player in
    (s'.current ≡ whole_setting)
    × (false ≡ false → receive_changed one_note s' ≡ none)
    × ((own' ≡ whole_setting) ⊎ (can_take whole_setting ≡ false))
take_settings-Reach_example =
    take_settings-Reach one_note none zero_setting whole_setting zero_setting false told_player
      one_note-IsMailbox refl told_player-Reach

abbrev pub working : Drivers (Option ℕ)
working = record {
  setup_i2s = λ s. true;
  create_changed = some none;
  dma_frames = 4096;
  chunks_of = λ rate frames ms. 41;
}

abbrev pub two_chunks : List PcmChunk
two_chunks = empty_chunk ∷ record empty_chunk { total_size = 4 } ∷ []

abbrev pub playing : PlayerState (List PcmChunk) (Option ℕ)
playing = record {
  queue = some two_chunks;
  started = true;
  settings = waiting_player;
  freed = [];
  freed_fragments = [];
}

destroy_pcm_queue_lem_example :
    destroy_pcm_queue two_places 3 playing
    ≡ some (1, record (free_all two_chunks playing) { queue = none })
destroy_pcm_queue_lem_example =
    destroy_pcm_queue_lem two_places (λ q. q) 3 two_chunks playing two_places-IsQueue refl
      (omega arith)

-- The first chunk comes before there is a queue.
abbrev at_start : Life (List PcmChunk) (Option ℕ)
at_start = record {
  player = record {
    queue = none;
    started = false;
    settings = told_player;
    freed = [];
    freed_fragments = [];
  };
  held = none;
  given = [];
}

abbrev after_first : Life (List PcmChunk) (Option ℕ)
after_first = record {
  player = (insert_pcm_chunk two_places working true empty_chunk at_start.player).1;
  held = none;
  given = empty_chunk ∷ [];
}

after_first-Reach : Owned.Reach two_places working after_first
after_first-Reach =
    Owned.Reach.later (Owned.Reach.start told_player) (Owned.Step.insert true empty_chunk)

Reach-owned_example :
    count (λ c. true) after_first.player.freed
      + count (λ c. true) (queued (λ q. q) after_first.player.queue)
      + count (λ c. true) (to_list after_first.held)
    ≡ count (λ c. true) after_first.given
Reach-owned_example =
    Reach-owned two_places (λ q. q) working (λ c. true) after_first two_places-IsQueue
      after_first-Reach

-- A filter that gives the last value that it got.
abbrev pub last_of : MedianFilter ℤ
last_of = record { init = λ f. (true, pos 0); insert = λ v f. (v, v); is_full = λ f. true }

abbrev clock_start : Clock ℤ
clock_start = record {
  filter = pos 0;
  semaphore = true;
  full_given = false;
  latency_to_server = pos 0;
  last_diff = pos 0;
}

abbrev set_clock : Clock ℤ
set_clock = player_latency_insert last_of true (pos 250) clock_start

set_clock-Reach : Known.Reach last_of (pos 0) set_clock (pos 250 ∷ [])
set_clock-Reach = Known.Reach.insert true (pos 250) Known.Reach.start

server_now-IsKnown_example :
    ((server_now true (pos 1000) set_clock).0 ≡ unknown)
    ⊎ ((d : ℤ) × ((server_now true (pos 1000) set_clock).0 ≡ at (pos 1000 +ℤ d) d)
        × IsOneOf d (pos 250 ∷ []))
server_now-IsKnown_example =
    server_now-IsKnown last_of (pos 0) set_clock (pos 250 ∷ []) true (pos 1000) set_clock-Reach

abbrev pub before_sound : Timer
before_sound = my_gptimer_stop (
    tg0_timer1_start 2000 (
      tg0_timer1_start 1500
        (tg0_timer_init (record { has_timer = false; running = false; calls = [] }))))

before_sound-Reach : Legal.Reach before_sound
before_sound-Reach =
    Legal.Reach.stop
      (Legal.Reach.alarm 2000 (Legal.Reach.alarm 1500 (Legal.Reach.init Legal.Reach.start)))

Reach-Taken_example :
    Taken before_sound.calls (phase_of before_sound.has_timer before_sound.running)
Reach-Taken_example = Reach-Taken before_sound before_sound-Reach

abbrev pub idle_task : Task
idle_task = record {
  own = zero_setting;
  created_with = 0;
  initial_sync = true;
  i2s_enabled = true;
  mutes = [];
}

adopt_settings-Renewed_example :
    (t' : Task) × (s' : PlayerState (List PcmChunk) (Option ℕ)) × (adopt_settings two_places working
        3 whole_setting idle_task playing
      ≡ goes_on t' s')
    × (t'.own ≡ whole_setting)
    × Renewed (λ q. q) (new_buffer zero_setting whole_setting 0) two_chunks [] playing s'
adopt_settings-Renewed_example =
    adopt_settings-Renewed two_places (λ q. q) working 3 whole_setting idle_task playing two_chunks
      [] two_places-IsQueue refl (omega arith) refl refl

abbrev before_start : Sounding (List PcmChunk) (Option ℕ)
before_start = record {
  task = record idle_task { own = whole_setting };
  player = playing;
  timer = before_sound;
  held = some empty_chunk;
  dir = pos 0;
  inserted = pos 0;
}
