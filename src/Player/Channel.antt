-- ===== src/Player/Channel.antt =====
-- The I2S channel of components/lightsnapcast/player.c: when it is made, enabled, disabled and deleted. The driver of
-- ESP-IDF is not in the repository: its calls are recorded.
pub mod Legal
use snapclient.Base.{ℕ, List, [], ◌∷◌, Bool, true, false, if◌then◌else◌, ◌&&◌, not}

-- `i2s_new_channel`, `i2s_channel_init_std_mode`, `i2s_channel_enable`, `i2s_channel_write` of bytes of silence,
-- `i2s_channel_disable` and `i2s_del_channel`.
pub data ChannelCall : Type 0 where
  new_channel init_std_mode enable write_silence disable del_channel : ChannelCall

-- Whether `tx_chan` is set, `i2sEnabled`, `i2s_primed`, and the calls made, the last one first.
pub record Channel : Type 0 where
  pub has_chan : Bool
  pub i2s_enabled : Bool
  pub primed : Bool
  pub calls : List ChannelCall

abbrev pub call : ChannelCall → Channel → Channel
call k c = record c { calls = k ∷ c.calls }

unfoldable pub my_i2s_channel_disable : Channel → Channel
my_i2s_channel_disable c =
    if c.has_chan && c.i2s_enabled then call disable (record c { i2s_enabled = false }) else c

unfoldable pub my_i2s_channel_enable : Channel → Channel
my_i2s_channel_enable c =
    if c.has_chan && not c.i2s_enabled then call enable (record c { i2s_enabled = true }) else c

-- `got_memory` says whether there is memory for the silence.
unfoldable pub ensure_noiseless : Bool → Channel → Channel
unfolding my_i2s_channel_enable my_i2s_channel_disable
ensure_noiseless got_memory c =
    let c' = my_i2s_channel_enable (record c { primed = true }) in
    if c.primed
    then c
    else my_i2s_channel_disable (if got_memory then call write_silence c' else c')

-- What is left of the channel is deleted: in `player_setup_i2s` and `deinit_player` if there is one.
unfoldable pub delete_channel : Channel → Channel
delete_channel c = if c.has_chan then record (call del_channel c) { has_chan = false } else c

-- `player_setup_i2s` behind the computation of the buffers. A failure of the driver ends the program there.
unfoldable pub setup_channel : Bool → Channel → Channel
unfolding my_i2s_channel_disable ensure_noiseless delete_channel
setup_channel got_memory c =
    let c' = if c.has_chan then delete_channel (my_i2s_channel_disable c) else c in
    ensure_noiseless got_memory
      (call init_std_mode (record (call new_channel c') { has_chan = true }))

-- The end of `player_task` for want of chunks. It deletes the channel whether there is one or not.
unfoldable pub end_channel : Channel → Channel
unfolding my_i2s_channel_disable
end_channel c = record (call del_channel (my_i2s_channel_disable c)) { has_chan = false }
