-- ===== src/Examples/Tasks.antt =====
-- The tasks of main/main.c and the server's settings on concrete inputs.
use snapclient.Base.{
  ℕ, ◌+◌, ◌-◌, ◌^◌, ◌≡◌, ◌⊎◌, [], ◌∷◌, refl, Option, some, none, true, false, inl,
}
use snapclient.Message.{BaseMessage, TimeMessage}
use snapclient.Message.Settings.{Json, buffer_ms, latency, volume, muted}
use snapclient.Rtos.{Mailbox, IsMailbox}
use snapclient.Client.Dac.{DacData, DacState, init_snapcast, audio_set_volume, dac_control_task}
use snapclient.Client.Dac.Settled.{told, Reach, Step, dac_control_task-Reach}
use snapclient.Client.TimeSync.{SyncState, Latencies, fast, time_sync_msg_received}
use snapclient.Client.TimeSync.Pace.{IsPaced, pace_of, time_sync_msg_received-IsPaced}

abbrev pub one_place : Mailbox DacData (Option DacData)
one_place = record {
  overwrite = λ d q. some d;
  receive = λ q. elim q [ none ↦ none | some d ↦ some (d, none) ];
}

one_place-IsMailbox : IsMailbox one_place
one_place-IsMailbox = record { holds_one = λ d q. (none, refl, refl) }

-- The volume is set twice before the task of the DAC runs.
abbrev pub started : DacState (Option DacData)
started = init_snapcast one_place none

abbrev louder : DacState (Option DacData)
louder = audio_set_volume one_place 40 (audio_set_volume one_place 30 started)

louder-Reach : Reach one_place none louder
louder-Reach = Reach.later (Reach.later Reach.start (Step.volume 30)) (Step.volume 40)

dac_control_task-Reach_example :
    (told (dac_control_task one_place louder).calls ≡ louder.requested)
    × ((dac_control_task one_place louder).requested ≡ louder.requested)
    × (one_place.receive (dac_control_task one_place louder).queue ≡ none)
dac_control_task-Reach_example =
    dac_control_task-Reach one_place none louder one_place-IsMailbox refl louder-Reach

-- A reader of texts of one byte, which is the volume.
abbrev pub tiny_json : Json ℕ
tiny_json = record {
  parse = λ text. elim text [ [] ↦ none | b ∷ bs ↦ some b ];
  has_error = λ text. true;
  member = λ j m. elim m [ buffer_ms ↦ none | latency ↦ none | volume ↦ some j | muted ↦ none ];
  valueint = λ j. some j;
  is_true = λ j. false;
}

-- The server is 5 s behind, and a message takes 1 s: sent at 10 s, received there at 6 s, answered at 6 s,
-- received at 12 s.
abbrev answer : BaseMessage
answer = record {
  type = 4;
  id = 0;
  refers_to = 0;
  sent = record { sec = 6; usec = 0 };
  received = record { sec = 12; usec = 0 };
  size = 8;
}

abbrev pub there : TimeMessage
there = record { latency = record { sec = 2 ^ 32 - 4; usec = 0 } }

-- A buffer that only counts.
abbrev pub counter : Latencies ℕ
counter = record { insert = λ a b c n. n + 1; reset = λ n. 0; full = λ n. true }

abbrev pub quick : SyncState ℕ
quick = record {
  sync = record { now = 900; last_time_sync = 400; last_time_sync_sent = 300; timeout = fast };
  player = 5;
  recv_timeout = 10;
}

time_sync_msg_received-IsPaced_example :
    let t = time_sync_msg_received counter answer there true quick in
    IsPaced t
    × ((true ≡ false) ⊎ (t.sync.timeout ≡ pace_of (counter.full t.player)))
    × (t.sync.last_time_sync ≡ 900)
time_sync_msg_received-IsPaced_example =
    time_sync_msg_received-IsPaced counter answer there true quick
      (record { pace = inl refl; limit = refl })
