-- ===== src/Player/Clock.antt =====
-- The server's clock in components/lightsnapcast/player.c, in the build with the median filter. The filter is
-- another project's library, and a parameter. A time is a signed number of microseconds, which is far from the
-- bounds of an int64_t.
pub mod Known
use snapclient.Base.{ℕ, Bool, true, false, Option, none, some, not, if◌then◌else◌}
use snapclient.Base.Int.{ℤ, pos, negsuc, ◌+ℤ◌, pos_part, neg_part}
use snapclient.Base.{◌+◌, ◌==◌}

-- `MEDIANFILTER_Init` with whether it succeeds, `MEDIANFILTER_Insert` with the median, and
-- `MEDIANFILTER_isFull` for `LATENCY_MEDIAN_FILTER_FULL`.
pub record MedianFilter (F : Type 0) : Type 0 where
  pub init : F → Bool × F
  pub insert : ℤ → F → ℤ × F
  pub is_full : F → Bool

-- `latencyMedianFilter`, whether `latencyBufSemaphoreHandle` is there, whether the semaphore for a full buffer is
-- given, `latencyToServer`, and the `lastDiff` of `get_diff_to_server`.
pub record Clock (F : Type 0) : Type 0 where
  pub filter : F
  pub semaphore : Bool
  pub full_given : Bool
  pub latency_to_server : ℤ
  pub last_diff : ℤ

-- The answer of `server_now`: the time and the difference, -1 before there is a difference, and a difference
-- that was never assigned.
pub data ServerTime : Type 0 where
  at : ℤ → ℤ → ServerTime
  unknown unassigned : ServerTime

abbrev pub is_zero : ℤ → Bool
is_zero d = pos_part d + neg_part d == 0

module _ {F : Type 0} (median : MedianFilter F) where
  -- Where the semaphore is taken by another task the median is not stored.
  unfoldable pub player_latency_insert : Bool → ℤ → Clock F → Clock F
  player_latency_insert taken value c =
      let (m, filter) = median.insert value c.filter in
      let c' = record c { filter = filter } in
      if taken
      then record c' {
        full_given = if median.is_full filter then true else c.full_given;
        latency_to_server = m;
      }
      else c'

  -- The task waits for the semaphore as long as it takes; `full_given` is taken back, if it was given in time.
  unfoldable pub reset_latency_buffer : Clock F → ℤ × Clock F
  reset_latency_buffer c =
      let (good, filter) = median.init c.filter in
      let c' = record c { full_given = false; filter = filter } in
      if not good
      then (negsuc 1, c')
      else if not c.semaphore
      then (negsuc 1, c')
      else (pos 0, record c' { latency_to_server = pos 0 })

  unfoldable pub latency_buffer_full : Clock F → Bool
  latency_buffer_full c = median.is_full c.filter

-- The code, the difference if it is assigned, and the state.
unfoldable pub get_diff_to_server : {F : Type 0} → Bool → Clock F → ℤ × Option ℤ × Clock F
get_diff_to_server taken c =
    if not c.semaphore
    then (negsuc 1, none, c)
    else if not taken
    then (negsuc 0, some c.last_diff, c)
    else (pos 0, some c.latency_to_server, record c { last_diff = c.latency_to_server })

abbrev pub time_of : ℤ → Option ℤ → ServerTime
time_of now none = unassigned
time_of now (some diff) = if is_zero diff then unknown else at (now +ℤ diff) diff

unfoldable pub server_now : {F : Type 0} → Bool → ℤ → Clock F → ServerTime × Clock F
unfolding get_diff_to_server
server_now taken now c = let (code, diff, c') = get_diff_to_server taken c in (time_of now diff, c')
