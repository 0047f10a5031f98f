-- ===== src/Player/Timer.antt =====
-- The timer that starts the sound at its time, in components/lightsnapcast/player.c. The driver of ESP-IDF is not
-- in the repository: its calls are recorded.
pub mod Legal
use snapclient.Base.{ℕ, List, [], ◌∷◌, Bool, true, false, if◌then◌else◌}

-- `gptimer_new_timer`, `gptimer_del_timer` and the others.
pub data TimerCall : Type 0 where
  new_timer del_timer enable disable start_timer stop_timer register_event_callbacks : TimerCall
  set_raw_count set_alarm_action : ℕ → TimerCall

-- Whether `gptimer` is set, `gpTimerRunning`, and the calls made, the last one first.
pub record Timer : Type 0 where
  pub has_timer : Bool
  pub running : Bool
  pub calls : List TimerCall

abbrev pub call : TimerCall → Timer → Timer
call c t = record t { calls = c ∷ t.calls }

unfoldable pub my_gptimer_stop : Timer → Timer
my_gptimer_stop t =
    if t.running then call disable (call stop_timer (record t { running = false })) else t

unfoldable pub my_gptimer_start : Timer → Timer
my_gptimer_start t = if t.running then t else call start_timer (record t { running = true })

unfoldable pub tg0_timer_deinit : Timer → Timer
unfolding my_gptimer_stop
tg0_timer_deinit t =
    if t.has_timer then record (call del_timer (my_gptimer_stop t)) { has_timer = false } else t

unfoldable pub tg0_timer_init : Timer → Timer
unfolding tg0_timer_deinit
tg0_timer_init t =
    call register_event_callbacks
      (record (call new_timer (tg0_timer_deinit t)) { has_timer = true })

unfoldable pub tg0_timer1_start : ℕ → Timer → Timer
unfolding my_gptimer_stop my_gptimer_start
tg0_timer1_start alarm_value t =
    if t.has_timer
    then my_gptimer_start (
        call (set_alarm_action alarm_value)
          (call (set_raw_count 0) (call enable (my_gptimer_stop t))))
    else t
