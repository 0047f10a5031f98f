-- ===== src/Client/Dac.antt =====
-- The control of the DAC in main/main.c: what tasks ask for is put into a queue of one place, from which
-- `dac_control_task` sets the codec. Each request holds a semaphore, so that it is one step. A volume
-- is the bit pattern of an `int`.
pub mod Settled
use snapclient.Rtos.{Mailbox}
use snapclient.Base.{
  same, ℕ, zero, suc, ◌-◌, ◌^◌, ◌==◌, List, [], ◌∷◌, ◌++◌, Option, none, some, Bool, true, false,
  not, if◌then◌else◌,
}

-- `audioDACdata_t`
pub record DacData : Type 0 where
  pub mute : Bool
  pub volume : ℕ
  pub enabled : Bool

-- The calls of the audio HAL, a driver that is not modelled: `audio_hal_set_mute`,
-- `audio_hal_set_volume` and `audio_hal_ctrl_codec`.
pub data HalCall : Type 0 where
  set_mute : Bool → HalCall
  set_volume : ℕ → HalCall
  ctrl_codec : Bool → HalCall

-- `audioDAC_data`, the queue, the task's `dac_data_old`, and the calls made, the last one first.
pub record DacState (Q : Type 0) : Type 0 where
  pub requested : DacData
  pub queue : Q
  pub old : DacData
  pub calls : List HalCall

abbrev pub initial : DacData
initial = record { mute = true; volume = 2 ^ 32 - 1; enabled = false }

module _ {Q : Type 0} (mailbox : Mailbox DacData Q) where
  -- `init_snapcast`, and the begin of the task.
  unfoldable pub init_snapcast : Q → DacState Q
  init_snapcast queue = record { requested = initial; queue = queue; old = initial; calls = [] }

  abbrev pub request : DacData → DacState Q → DacState Q
  request d s = record s { requested = d; queue = mailbox.overwrite d s.queue }

  unfoldable pub audio_dac_enable : Bool → DacState Q → DacState Q
  audio_dac_enable enabled s =
      if not (same enabled s.requested.enabled)
      then request (record s.requested { enabled = enabled }) s
      else s

  unfoldable pub audio_set_mute : Bool → DacState Q → DacState Q
  audio_set_mute mute s =
      if not (same mute s.requested.mute) then request (record s.requested { mute = mute }) s else s

  unfoldable pub audio_set_volume : ℕ → DacState Q → DacState Q
  audio_set_volume volume s =
      if not (volume == s.requested.volume)
      then request (record s.requested { volume = volume }) s
      else s

-- The calls for the difference of two requests.
unfoldable pub set_codec : DacData → DacData → List HalCall → List HalCall
set_codec old new calls =
    let calls' = if not (same new.mute old.mute) then set_mute new.mute ∷ calls else calls in
    let calls'' =
      if not (new.volume == old.volume) then set_volume new.volume ∷ calls' else calls' in
    if not (same new.enabled old.enabled) then ctrl_codec new.enabled ∷ calls'' else calls''

-- A round of the task, which waits while the queue is empty.
abbrev pub after_take : {Q : Type 0} → DacState Q → Option (DacData × Q) → DacState Q
after_take s none = s
after_take s (some (d, queue)) = record s {
  queue = queue;
  old = d;
  calls = set_codec s.old d s.calls;
}

unfoldable pub dac_control_task : {Q : Type 0} → Mailbox DacData Q → DacState Q → DacState Q
dac_control_task mailbox s = after_take s (mailbox.receive s.queue)
