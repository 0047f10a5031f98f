-- ===== src/Player/Channel/Legal.antt =====
-- The driver of ESP-IDF takes the calls that components/lightsnapcast/player.c makes for its I2S channel.
use snapclient.Base.{◌≡◌, refl, sym, List, [], ◌∷◌, Bool, true, false}
use snapclient.Player.Channel.{
  Channel, ChannelCall, new_channel, init_std_mode, enable, write_silence, disable, del_channel,
  my_i2s_channel_disable, my_i2s_channel_enable, ensure_noiseless, delete_channel, setup_channel,
  end_channel,
}

-- The states of the driver's channel, as its documentation has them.
pub data Phase : Type 0 where
  no_channel registered ready running : Phase

-- The calls that the driver takes in a state, and the state after them.
pub data Accepts : Phase → ChannelCall → Phase → Type 0 where
  creates : Accepts no_channel new_channel registered
  sets_up : Accepts registered init_std_mode ready
  enables : Accepts ready enable running
  writes : Accepts running write_silence running
  disables : Accepts running disable ready
  deletes : Accepts ready del_channel no_channel

-- The driver took every call.
pub data Taken : List ChannelCall → Phase → Type 0 where
  no_call : Taken [] no_channel
  also :
      {calls : List ChannelCall} {p p' : Phase} {c : ChannelCall}
      → Taken calls p
      → Accepts p c p'
      → Taken (c ∷ calls) p'

-- What the tasks do with the channel: `deinit_player` deletes it with the task gone, behind a call that disables it,
-- and the player's task ends only if there was a channel.
pub data Reach : Channel → Type 0 where
  start : Reach (record { has_chan = false; i2s_enabled = false; primed = false; calls = [] })
  set_up : (got_memory : Bool) {c : Channel} → Reach c → Reach (setup_channel got_memory c)
  disabled : {c : Channel} → Reach c → Reach (my_i2s_channel_disable c)
  enabled : {c : Channel} → Reach c → Reach (my_i2s_channel_enable c)
  ended : {c : Channel} → Reach c → c.has_chan ≡ true → Reach (end_channel c)
  deinit : {c : Channel} → Reach c → c.i2s_enabled ≡ false → Reach (delete_channel c)

-- The flags tell the state of the driver's channel.
abbrev pub phase_of : Bool → Bool → Phase
phase_of false b = no_channel
phase_of true false = ready
phase_of true true = running

record IsInStep (c : Channel) : Type 0 where
  taken : Taken c.calls (phase_of c.has_chan c.i2s_enabled)
  stopped : c.has_chan ≡ false → c.i2s_enabled ≡ false

not_false : ¬ (true ≡ false)
not_false e = cc

-- A channel whose four parts are given.
abbrev channel : Bool → Bool → Bool → List ChannelCall → Channel
channel has runs primed calls = record {
  has_chan = has;
  i2s_enabled = runs;
  primed = primed;
  calls = calls;
}

there :
    {c : Channel}
    → Taken c.calls (phase_of c.has_chan c.i2s_enabled)
    → c.has_chan ≡ true
    → IsInStep c
there t e = record { taken = t; stopped = λ n. absurd (not_false (cc)) }

disable-IsInStep :
    (has runs primed : Bool) (calls : List ChannelCall)
    → IsInStep (channel has runs primed calls)
    → IsInStep (my_i2s_channel_disable (channel has runs primed calls))
unfolding my_i2s_channel_disable
disable-IsInStep false runs p calls h = record { taken = h.taken; stopped = h.stopped }
disable-IsInStep true false p calls h = record { taken = h.taken; stopped = h.stopped }
disable-IsInStep true true p calls h = there (also h.taken disables) refl

enable-IsInStep :
    (has runs primed : Bool) (calls : List ChannelCall)
    → IsInStep (channel has runs primed calls)
    → IsInStep (my_i2s_channel_enable (channel has runs primed calls))
unfolding my_i2s_channel_enable
enable-IsInStep false runs p calls h = record { taken = h.taken; stopped = h.stopped }
enable-IsInStep true true p calls h = record { taken = h.taken; stopped = h.stopped }
enable-IsInStep true false p calls h = there (also h.taken enables) refl

-- A channel that was just set up is primed with silence once.
noiseless-IsInStep :
    (got primed : Bool) (calls : List ChannelCall)
    → Taken calls ready
    → IsInStep (ensure_noiseless got (channel true false primed calls))
unfolding ensure_noiseless my_i2s_channel_enable my_i2s_channel_disable
noiseless-IsInStep got true calls t = there t refl
noiseless-IsInStep true false calls t = there (also (also (also t enables) writes) disables) refl
noiseless-IsInStep false false calls t = there (also (also t enables) disables) refl

setup-IsInStep :
    (got has runs primed : Bool) (calls : List ChannelCall)
    → IsInStep (channel has runs primed calls)
    → IsInStep (setup_channel got (channel has runs primed calls))
unfolding setup_channel delete_channel my_i2s_channel_disable
setup-IsInStep got false true p calls h = absurd (not_false (h.stopped refl))
setup-IsInStep got false false p calls h =
    noiseless-IsInStep got p (init_std_mode ∷ new_channel ∷ calls)
      (also (also h.taken creates) sets_up)
setup-IsInStep got true false p calls h =
    noiseless-IsInStep got p (init_std_mode ∷ new_channel ∷ del_channel ∷ calls)
      (also (also (also h.taken deletes) creates) sets_up)
setup-IsInStep got true true p calls h =
    noiseless-IsInStep got p (init_std_mode ∷ new_channel ∷ del_channel ∷ disable ∷ calls)
      (also (also (also (also h.taken disables) deletes) creates) sets_up)

end-IsInStep :
    (has runs primed : Bool) (calls : List ChannelCall)
    → has ≡ true
    → IsInStep (channel has runs primed calls)
    → IsInStep (end_channel (channel has runs primed calls))
unfolding end_channel my_i2s_channel_disable
end-IsInStep false runs p calls e h = absurd (not_false (sym e))
end-IsInStep true false p calls e h = record { taken = also h.taken deletes; stopped = λ n. refl }
end-IsInStep true true p calls e h = record {
  taken = also (also h.taken disables) deletes;
  stopped = λ n. refl;
}

delete-IsInStep :
    (has runs primed : Bool) (calls : List ChannelCall)
    → runs ≡ false
    → IsInStep (channel has runs primed calls)
    → IsInStep (delete_channel (channel has runs primed calls))
unfolding delete_channel
delete-IsInStep false runs p calls e h = record { taken = h.taken; stopped = h.stopped }
delete-IsInStep true false p calls e h = record {
  taken = also h.taken deletes;
  stopped = λ n. refl;
}
delete-IsInStep true true p calls e h = absurd (not_false e)

Reach-IsInStep : {c : Channel} → Reach c → IsInStep c
Reach-IsInStep start = record { taken = no_call; stopped = λ e. refl }
Reach-IsInStep (set_up got {c} r) =
    setup-IsInStep got c.has_chan c.i2s_enabled c.primed c.calls (Reach-IsInStep r)
Reach-IsInStep (disabled {c} r) =
    disable-IsInStep c.has_chan c.i2s_enabled c.primed c.calls (Reach-IsInStep r)
Reach-IsInStep (enabled {c} r) =
    enable-IsInStep c.has_chan c.i2s_enabled c.primed c.calls (Reach-IsInStep r)
Reach-IsInStep (ended {c} r e) =
    end-IsInStep c.has_chan c.i2s_enabled c.primed c.calls e (Reach-IsInStep r)
Reach-IsInStep (deinit {c} r e) =
    delete-IsInStep c.has_chan c.i2s_enabled c.primed c.calls e (Reach-IsInStep r)

-- In whatever order the player sets the channel up, enables and disables it, and deletes it at the end of its task or
-- in `deinit_player`, provided that this finds it disabled: the driver takes every call, and it runs the channel just
-- when there is one and `i2sEnabled` says so.
pub Reach-Legal : (c : Channel) → Reach c → Taken c.calls (phase_of c.has_chan c.i2s_enabled)
Reach-Legal c r = let h = Reach-IsInStep r in h.taken
