-- ===== src/Player/Clock/Known.antt =====
-- What the player takes for the server's clock in components/lightsnapcast/player.c.
use snapclient.Base.{◌≡◌, refl, ◌⊎◌, inl, inr, List, [], ◌∷◌, Bool, true, false, Bool-cases, some}
use snapclient.Base.Int.{ℤ, pos, ◌+ℤ◌}
use snapclient.Player.Clock.{
  MedianFilter, Clock, at, unknown, is_zero, time_of, player_latency_insert, reset_latency_buffer,
  get_diff_to_server, server_now,
}

-- A number of a list.
pub data IsOneOf (d : ℤ) : List ℤ → Type 0 where
  first : (ds : List ℤ) → IsOneOf d (d ∷ ds)
  after : (e : ℤ) {ds : List ℤ} → IsOneOf d ds → IsOneOf d (e ∷ ds)

-- What the tasks do with the clock, and all the medians of the filter since it is there, the last one first. The
-- semaphore is taken in time or not.
pub data Reach {F : Type 0} (median : MedianFilter F) (filter : F) : Clock F → List ℤ → Type 0 where
  start :
      Reach median filter
        (record {
          filter = filter;
          semaphore = true;
          full_given = false;
          latency_to_server = pos 0;
          last_diff = pos 0;
        })
        []
  insert :
      (taken : Bool) (value : ℤ) {c : Clock F} {ds : List ℤ}
      → Reach median filter c ds
      → Reach median filter
          (player_latency_insert median taken value c)
          ((median.insert value c.filter).0 ∷ ds)
  reset :
      {c : Clock F} {ds : List ℤ}
      → Reach median filter c ds
      → Reach median filter (reset_latency_buffer median c).1 ds
  ask :
      (taken : Bool) (now : ℤ) {c : Clock F} {ds : List ℤ}
      → Reach median filter c ds
      → Reach median filter (server_now taken now c).1 ds

-- There is no difference yet, or it is one of the medians.
abbrev IsKnown : ℤ → List ℤ → Type 0
IsKnown d ds = (d ≡ pos 0) ⊎ IsOneOf d ds

record IsSound {F : Type 0} (c : Clock F) (ds : List ℤ) : Type 0 where
  semaphore : c.semaphore ≡ true
  latency : IsKnown c.latency_to_server ds
  last : IsKnown c.last_diff ds

later : (d e : ℤ) (ds : List ℤ) → IsKnown d ds → IsKnown d (e ∷ ds)
later d e ds (inl zero_diff) = inl zero_diff
later d e ds (inr one) = inr (after e one)

module _ {F : Type 0} (median : MedianFilter F) where
  insert-IsSound :
      (taken : Bool) (value : ℤ) (c : Clock F) (ds : List ℤ)
      → IsSound c ds
      → IsSound (player_latency_insert median taken value c) ((median.insert value c.filter).0 ∷ ds)
  unfolding player_latency_insert
  insert-IsSound true value c ds h = record {
    semaphore = h.semaphore;
    latency = inr (first ds);
    last = later c.last_diff (median.insert value c.filter).0 ds h.last;
  }
  insert-IsSound false value c ds h = record {
    semaphore = h.semaphore;
    latency = later c.latency_to_server (median.insert value c.filter).0 ds h.latency;
    last = later c.last_diff (median.insert value c.filter).0 ds h.last;
  }

  reset-IsSound :
      (c : Clock F) (ds : List ℤ) → IsSound c ds → IsSound (reset_latency_buffer median c).1 ds
  unfolding reset_latency_buffer
  reset-IsSound c ds h = elim (Bool-cases (median.init c.filter).0) [
    | inl good ↦
        rw (good, h.semaphore) (record { semaphore = refl; latency = inl refl; last = h.last })
    | inr bad ↦ rw bad (record { semaphore = h.semaphore; latency = h.latency; last = h.last })
  ]

ask-IsSound :
    {F : Type 0} (taken : Bool) (now : ℤ) (c : Clock F) (ds : List ℤ)
    → IsSound c ds
    → IsSound (server_now taken now c).1 ds
unfolding server_now get_diff_to_server
ask-IsSound true now c ds h =
    rw h.semaphore (record { semaphore = refl; latency = h.latency; last = h.latency })
ask-IsSound false now c ds h =
    rw h.semaphore (record { semaphore = refl; latency = h.latency; last = h.last })

Reach-IsSound :
    {F : Type 0} (median : MedianFilter F) (filter : F) {c : Clock F} {ds : List ℤ}
    → Reach median filter c ds
    → IsSound c ds
Reach-IsSound median filter start = record { semaphore = refl; latency = inl refl; last = inl refl }
Reach-IsSound median filter (insert taken value {c} {ds} r) =
    insert-IsSound median taken value c ds (Reach-IsSound median filter r)
Reach-IsSound median filter (reset {c} {ds} r) =
    reset-IsSound median c ds (Reach-IsSound median filter r)
Reach-IsSound median filter (ask taken now {c} {ds} r) =
    ask-IsSound taken now c ds (Reach-IsSound median filter r)

time_of-IsKnown :
    (now d : ℤ) (ds : List ℤ)
    → IsKnown d ds
    → (time_of now (some d) ≡ unknown) ⊎ ((time_of now (some d) ≡ at (now +ℤ d) d) × IsOneOf d ds)
time_of-IsKnown now d ds (inl e) = rw e (inl refl)
time_of-IsKnown now d ds (inr one) = elim (Bool-cases (is_zero d)) [
  | inl nothing ↦ rw nothing (inl refl)
  | inr some_diff ↦ rw some_diff (inr (refl, one))
]

-- Whatever the tasks do with the clock, and whether or not they get the semaphore: the server's time is unknown,
-- or it is the client's time and one of the medians that the filter gave.
pub server_now-IsKnown :
    {F : Type 0} (median : MedianFilter F) (filter : F) (c : Clock F) (ds : List ℤ) (taken : Bool)
    (now : ℤ)
    → Reach median filter c ds
    → ((server_now taken now c).0 ≡ unknown)
      ⊎ ((d : ℤ) × ((server_now taken now c).0 ≡ at (now +ℤ d) d) × IsOneOf d ds)
unfolding server_now get_diff_to_server
server_now-IsKnown median filter c ds true now r =
    let h = Reach-IsSound median filter r in
    elim (time_of-IsKnown now c.latency_to_server ds h.latency) [
      | inl nothing ↦ inl (rw h.semaphore nothing)
      | inr (e, one) ↦ inr (c.latency_to_server, rw h.semaphore e, one)
    ]
server_now-IsKnown median filter c ds false now r =
    let h = Reach-IsSound median filter r in
    elim (time_of-IsKnown now c.last_diff ds h.last) [
      | inl nothing ↦ inl (rw h.semaphore nothing)
      | inr (e, one) ↦ inr (c.last_diff, rw h.semaphore e, one)
    ]
