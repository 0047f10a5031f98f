-- ===== src/Player/Timer/Legal.antt =====
-- The driver of ESP-IDF never refuses a call of the timer's functions in components/lightsnapcast/player.c.
use snapclient.Base.{ℕ, ◌≡◌, refl, List, [], ◌∷◌, Bool, true, false}
use snapclient.Player.Timer.{
  Timer, TimerCall, new_timer, del_timer, enable, disable, start_timer, stop_timer,
  register_event_callbacks, set_raw_count, set_alarm_action, my_gptimer_stop, my_gptimer_start,
  tg0_timer_deinit, tg0_timer_init, tg0_timer1_start,
}

-- The states of the driver's timer, as its documentation has them.
pub data Phase : Type 0 where
  no_timer ready enabled running : Phase

-- The calls that the driver takes in a state, and the state after them.
pub data Accepts : Phase → TimerCall → Phase → Type 0 where
  creates : Accepts no_timer new_timer ready
  deletes : Accepts ready del_timer no_timer
  registers : Accepts ready register_event_callbacks ready
  enables : Accepts ready enable enabled
  disables : Accepts enabled disable ready
  starts : Accepts enabled start_timer running
  stops : Accepts running stop_timer enabled
  counts : (n : ℕ) → Accepts enabled (set_raw_count n) enabled
  alarms : (n : ℕ) → Accepts enabled (set_alarm_action n) enabled

-- The driver took every call.
pub data Taken : List TimerCall → Phase → Type 0 where
  no_call : Taken [] no_timer
  also :
      {calls : List TimerCall} {p p' : Phase} {c : TimerCall}
      → Taken calls p
      → Accepts p c p'
      → Taken (c ∷ calls) p'

-- The functions that the player calls.
pub data Reach : Timer → Type 0 where
  start : Reach (record { has_timer = false; running = false; calls = [] })
  init : {t : Timer} → Reach t → Reach (tg0_timer_init t)
  deinit : {t : Timer} → Reach t → Reach (tg0_timer_deinit t)
  alarm : (n : ℕ) {t : Timer} → Reach t → Reach (tg0_timer1_start n t)
  stop : {t : Timer} → Reach t → Reach (my_gptimer_stop t)

-- The flags tell the state of the driver's timer.
abbrev pub phase_of : Bool → Bool → Phase
phase_of false b = no_timer
phase_of true false = ready
phase_of true true = running

record IsInStep (t : Timer) : Type 0 where
  taken : Taken t.calls (phase_of t.has_timer t.running)
  stopped : t.has_timer ≡ false → t.running ≡ false

not_false : ¬ (true ≡ false)
not_false e = cc

-- A timer whose three parts are given.
abbrev timer : Bool → Bool → List TimerCall → Timer
timer has runs calls = record { has_timer = has; running = runs; calls = calls }

stop-IsInStep :
    (has runs : Bool) (calls : List TimerCall)
    → IsInStep (timer has runs calls)
    → IsInStep (my_gptimer_stop (timer has runs calls))
unfolding my_gptimer_stop
stop-IsInStep has false calls h = record { taken = h.taken; stopped = h.stopped }
stop-IsInStep false true calls h = absurd (not_false (h.stopped refl))
stop-IsInStep true true calls h = record {
  taken = also (also h.taken stops) disables;
  stopped = λ e. absurd (not_false e);
}

deinit-IsInStep :
    (has runs : Bool) (calls : List TimerCall)
    → IsInStep (timer has runs calls)
    → IsInStep (tg0_timer_deinit (timer has runs calls))
unfolding tg0_timer_deinit my_gptimer_stop
deinit-IsInStep false runs calls h = record { taken = h.taken; stopped = h.stopped }
deinit-IsInStep true false calls h = record { taken = also h.taken deletes; stopped = λ e. refl }
deinit-IsInStep true true calls h = record {
  taken = also (also (also h.taken stops) disables) deletes;
  stopped = λ e. refl;
}

init-IsInStep :
    (has runs : Bool) (calls : List TimerCall)
    → IsInStep (timer has runs calls)
    → IsInStep (tg0_timer_init (timer has runs calls))
unfolding tg0_timer_init tg0_timer_deinit my_gptimer_stop
init-IsInStep false true calls h = absurd (not_false (h.stopped refl))
init-IsInStep false false calls h = record {
  taken = also (also h.taken creates) registers;
  stopped = λ e. absurd (not_false e);
}
init-IsInStep true false calls h = record {
  taken = also (also (also h.taken deletes) creates) registers;
  stopped = λ e. absurd (not_false e);
}
init-IsInStep true true calls h = record {
  taken = also (also (also (also (also h.taken stops) disables) deletes) creates) registers;
  stopped = λ e. absurd (not_false e);
}

alarm-IsInStep :
    (n : ℕ) (has runs : Bool) (calls : List TimerCall)
    → IsInStep (timer has runs calls)
    → IsInStep (tg0_timer1_start n (timer has runs calls))
unfolding tg0_timer1_start my_gptimer_stop my_gptimer_start
alarm-IsInStep n false runs calls h = record { taken = h.taken; stopped = h.stopped }
alarm-IsInStep n true false calls h = record {
  taken = also (also (also (also h.taken enables) (counts 0)) (alarms n)) starts;
  stopped = λ e. absurd (not_false e);
}
alarm-IsInStep n true true calls h = record {
  taken =
      also (also (also (also (also (also h.taken stops) disables) enables) (counts 0)) (alarms n))
        starts;
  stopped = λ e. absurd (not_false e);
}

Reach-IsInStep : {t : Timer} → Reach t → IsInStep t
Reach-IsInStep start = record { taken = no_call; stopped = λ e. refl }
Reach-IsInStep (init {t} r) = init-IsInStep t.has_timer t.running t.calls (Reach-IsInStep r)
Reach-IsInStep (deinit {t} r) = deinit-IsInStep t.has_timer t.running t.calls (Reach-IsInStep r)
Reach-IsInStep (alarm n {t} r) = alarm-IsInStep n t.has_timer t.running t.calls (Reach-IsInStep r)
Reach-IsInStep (stop {t} r) = stop-IsInStep t.has_timer t.running t.calls (Reach-IsInStep r)

-- In whatever order the player calls its functions: the driver takes every call that they make, and it runs its
-- timer just when `gpTimerRunning` says so.
pub Reach-Taken : (t : Timer) → Reach t → Taken t.calls (phase_of t.has_timer t.running)
Reach-Taken t r = let h = Reach-IsInStep r in h.taken
