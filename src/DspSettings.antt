-- ===== src/DspSettings.antt =====
-- components/dsp_processor_settings/dsp_processor_settings.c: the parameters of the sound's filters in the flash
-- memory. A flow is one set of filters, by its number as an int's bit pattern.
pub mod Params
pub mod Access
pub mod Keys
pub mod Saved
pub mod Kept
pub mod Switched
pub mod Restored
use Prim.Native.String.{String}
use snapclient.Base.{
  ℕ, zero, suc, List, [], ◌∷◌, ◌++◌, Option, none, some, Bool, true, false, ltb, ◌==◌, ◌&&◌, not,
  if◌then◌else◌, take,
}
use snapclient.Base.Text.{codes}
use snapclient.Settings.{EspErr, esp_ok, invalid_arg, invalid_state, no_mem, timeout, is_ok}

-- The NVS library on its memory `N`, in the name space of these settings, and whether the mutex is got in time.
pub record DspNvs (N : Type 0) : Type 0 where
  pub lock : N → Bool × N
  pub create_mutex : Bool
  pub open_read : N → EspErr
  pub open_write : N → EspErr × N
  pub get_i32 : List ℕ → N → EspErr × ℕ
  pub set_i32 : List ℕ → ℕ → N → EspErr × N
  pub commit : N → EspErr × N

-- A float, with the conversions from and to an int32_t, and the defaults.
pub record Floats (R : Type 0) : Type 0 where
  pub of_int : ℕ → R
  pub to_int : R → ℕ
  pub bass_freq : R
  pub treble_freq : R
  pub gain : R

-- `filterParams_t`, as far as it is stored.
pub record FilterParams (R : Type 0) : Type 0 where
  pub fc_1 : R
  pub gain_1 : R
  pub fc_3 : R
  pub gain_3 : R

-- What the processor of the sound is told.
pub data ProcessorCall (R : Type 0) : Type 0 where
  set_params_for_flow : ℕ → FilterParams R → ProcessorCall R
  switch_flow : ℕ → ProcessorCall R

-- `dsp_settings_mutex`, the flash memory, and the calls of the processor, the last one first.
pub record DspSettings (N R : Type 0) : Type 0 where
  pub mutex : Bool
  pub store : N
  pub told : List (ProcessorCall R)

-- `DSP_FLOW_COUNT`; a negative int has a larger pattern.
abbrev pub is_flow : ℕ → Bool
is_flow flow = ltb flow 6

abbrev pub key_active : List ℕ
key_active = codes "active_flow"

-- `print` is `%d` of an int; the buffer has 32 places.
abbrev pub make_flow_key : (ℕ → List ℕ) → ℕ → String → List ℕ
make_flow_key print flow param =
    take 31 (codes "flow_" ++ (print flow ++ (codes "_" ++ codes param)))

-- Without one it is `dspfStereo`.
abbrev pub flow_or : Option ℕ → ℕ
flow_or none = 0
flow_or (some flow) = flow

abbrev pub tell : {N R : Type 0} → ProcessorCall R → DspSettings N R → DspSettings N R
tell c s = record s { told = c ∷ s.told }

module _ {N : Type 0} (nvs : DspNvs N) where
  abbrev pub stored_in : {A R : Type 0} → DspSettings N R → A × N → A × DspSettings N R
  stored_in s (a, n) = (a, record s { store = n })

  abbrev pub committed : EspErr × N → EspErr × N
  committed (err, n) = if is_ok err then nvs.commit n else (err, n)

  abbrev pub put_opened : List ℕ → ℕ → EspErr × N → EspErr × N
  put_opened key v (err, n) = if is_ok err then committed (nvs.set_i32 key v n) else (err, n)

  abbrev pub put_locked :
      {R : Type 0} → List ℕ → ℕ → DspSettings N R → Bool × N → EspErr × DspSettings N R
  put_locked key v s (false, n) = (timeout, record s { store = n })
  put_locked key v s (true, n) = stored_in s (put_opened key v (nvs.open_write n))

  -- An integer is stored under the mutex.
  unfoldable pub save_i32 : {R : Type 0} → List ℕ → ℕ → DspSettings N R → EspErr × DspSettings N R
  save_i32 key v s = if s.mutex then put_locked key v s (nvs.lock s.store) else (invalid_state, s)

  abbrev pub got : EspErr × ℕ → EspErr × Option ℕ
  got (err, v) = (err, if is_ok err then some v else none)

  abbrev pub load_opened : List ℕ → N → EspErr → EspErr × Option ℕ
  load_opened key n err = if is_ok err then got (nvs.get_i32 key n) else (err, none)

  abbrev pub load_locked :
      {R : Type 0} → List ℕ → DspSettings N R → Bool × N → (EspErr × Option ℕ) × DspSettings N R
  load_locked key s (false, n) = ((timeout, none), record s { store = n })
  load_locked key s (true, n) = (load_opened key n (nvs.open_read n), record s { store = n })

  -- It is read under the mutex: `none` is an integer that is not assigned.
  unfoldable pub load_i32 :
      {R : Type 0} → List ℕ → DspSettings N R → (EspErr × Option ℕ) × DspSettings N R
  load_i32 key s =
      if s.mutex then load_locked key s (nvs.lock s.store) else ((invalid_state, none), s)

  module _ {R : Type 0} where
    unfoldable pub dsp_settings_save_active_flow : ℕ → DspSettings N R → EspErr × DspSettings N R
    unfolding save_i32
    dsp_settings_save_active_flow flow s =
        if is_flow flow then save_i32 key_active flow s else (invalid_arg, s)

    unfoldable pub dsp_settings_load_active_flow :
        DspSettings N R → (EspErr × Option ℕ) × DspSettings N R
    unfolding load_i32
    dsp_settings_load_active_flow s = load_i32 key_active s

    unfoldable pub dsp_settings_get_active_flow : DspSettings N R → ℕ × DspSettings N R
    unfolding dsp_settings_load_active_flow
    dsp_settings_get_active_flow s =
        let ((err, flow), s') = dsp_settings_load_active_flow s in (flow_or flow, s')

    unfoldable pub dsp_settings_save_flow_param :
        (ℕ → List ℕ) → ℕ → String → ℕ → DspSettings N R → EspErr × DspSettings N R
    unfolding save_i32
    dsp_settings_save_flow_param print flow param v s =
        save_i32 (make_flow_key print flow param) v s

    unfoldable pub dsp_settings_load_flow_param :
        (ℕ → List ℕ) → ℕ → String → DspSettings N R → (EspErr × Option ℕ) × DspSettings N R
    unfolding load_i32
    dsp_settings_load_flow_param print flow param s =
        if s.mutex && not (is_flow flow)
        then ((invalid_arg, none), s)
        else load_i32 (make_flow_key print flow param) s
