-- ===== src/DspSettings/Params.antt =====
-- The parameters of a whole flow, and the start, in components/dsp_processor_settings/dsp_processor_settings.c.
use snapclient.Base.{
  ℕ, List, [], ◌∷◌, Option, none, some, Bool, true, false, ◌==◌, ◌&&◌, if◌then◌else◌,
}
use snapclient.Settings.{EspErr, esp_ok, invalid_arg, no_mem, is_ok}
use snapclient.DspSettings.{
  DspNvs, Floats, FilterParams, DspSettings, set_params_for_flow, switch_flow, is_flow, tell,
  flow_or, dsp_settings_save_active_flow, dsp_settings_load_active_flow,
  dsp_settings_save_flow_param, dsp_settings_load_flow_param,
}

abbrev pub loaded_or : {R : Type 0} → (ℕ → R) → R → EspErr × Option ℕ → R
loaded_or of_int default (err, none) = default
loaded_or of_int default (err, some v) = if is_ok err then of_int v else default

abbrev pub all_flows : List ℕ
all_flows = 0 ∷ 1 ∷ 2 ∷ 3 ∷ 4 ∷ 5 ∷ []

module _ {N R : Type 0} (nvs : DspNvs N) (floats : Floats R) (print : ℕ → List ℕ) where
  -- `none` is an invalid flow.
  unfoldable pub dsp_settings_get_flow_params :
      ℕ → DspSettings N R → Option (FilterParams R) × DspSettings N R
  dsp_settings_get_flow_params flow s =
      let (v1, s1) = dsp_settings_load_flow_param nvs print flow "fc_1" s in
      let (v2, s2) = dsp_settings_load_flow_param nvs print flow "gain_1" s1 in
      let (v3, s3) = dsp_settings_load_flow_param nvs print flow "fc_3" s2 in
      let (v4, s4) = dsp_settings_load_flow_param nvs print flow "gain_3" s3 in
      if is_flow flow
      then (
        some (record {
          fc_1 = loaded_or floats.of_int floats.bass_freq v1;
          gain_1 = loaded_or floats.of_int floats.gain v2;
          fc_3 = loaded_or floats.of_int floats.treble_freq v3;
          gain_3 = loaded_or floats.of_int floats.gain v4;
        }),
        s4,
      )
      else (none, s)

  -- Whether every save succeeds: the code joins the error codes by `|=`.
  unfoldable pub save_params : ℕ → FilterParams R → DspSettings N R → Bool × DspSettings N R
  save_params flow params s =
      let (e1, s1) =
        dsp_settings_save_flow_param nvs print flow "fc_1" (floats.to_int params.fc_1) s in
      let (e2, s2) =
        dsp_settings_save_flow_param nvs print flow "gain_1" (floats.to_int params.gain_1) s1 in
      let (e3, s3) =
        dsp_settings_save_flow_param nvs print flow "fc_3" (floats.to_int params.fc_3) s2 in
      let (e4, s4) =
        dsp_settings_save_flow_param nvs print flow "gain_3" (floats.to_int params.gain_3) s3 in
      (is_ok e1 && (is_ok e2 && (is_ok e3 && is_ok e4)), s4)

  -- The processor is told of the parameters of the active flow.
  abbrev pub is_active : ℕ → EspErr × Option ℕ → Bool
  is_active flow (err, none) = false
  is_active flow (err, some active) = is_ok err && active == flow

  abbrev pub apply_if_active :
      ℕ → FilterParams R → (EspErr × Option ℕ) × DspSettings N R → DspSettings N R
  apply_if_active flow params (active, s) =
      if is_active flow active then tell (set_params_for_flow flow params) s else s

  abbrev pub after_save : ℕ → FilterParams R → Bool × DspSettings N R → Bool × DspSettings N R
  after_save flow params (false, s) = (false, s)
  after_save flow params (true, s) =
      (true, apply_if_active flow params (dsp_settings_load_active_flow nvs s))

  -- With whether the result is `ESP_OK`.
  unfoldable pub dsp_settings_set_flow_params :
      ℕ → FilterParams R → DspSettings N R → Bool × DspSettings N R
  unfolding save_params
  dsp_settings_set_flow_params flow params s =
      if is_flow flow then after_save flow params (save_params flow params s) else (false, s)

  abbrev pub tell_params : ℕ → Option (FilterParams R) × DspSettings N R → DspSettings N R
  tell_params flow (none, s) = s
  tell_params flow (some params, s) = tell (set_params_for_flow flow params) s

  abbrev pub after_switch : ℕ → EspErr × DspSettings N R → EspErr × DspSettings N R
  after_switch flow (err, s) =
      if is_ok err
      then (err, tell (switch_flow flow) (tell_params flow (dsp_settings_get_flow_params flow s)))
      else (err, s)

  unfoldable pub dsp_settings_switch_active_flow : ℕ → DspSettings N R → EspErr × DspSettings N R
  unfolding dsp_settings_get_flow_params
  dsp_settings_switch_active_flow flow s =
      if is_flow flow
      then after_switch flow (dsp_settings_save_active_flow nvs flow s)
      else (invalid_arg, s)

  -- `for (f = 0; f < DSP_FLOW_COUNT; f++)`, with the flows that are left.
  unfoldable pub restore : List ℕ → DspSettings N R → DspSettings N R
  unfolding dsp_settings_get_flow_params
  restore [] s = s
  restore (f ∷ flows) s = restore flows (tell_params f (dsp_settings_get_flow_params f s))

  abbrev pub start_flow : (EspErr × Option ℕ) × DspSettings N R → EspErr × DspSettings N R
  start_flow ((err, active), s) =
      let s' = if is_ok err then restore all_flows s else s in
      (esp_ok, tell (switch_flow (flow_or active)) s')

  unfoldable pub dsp_settings_init : DspSettings N R → EspErr × DspSettings N R
  unfolding restore
  dsp_settings_init s =
      if s.mutex
      then start_flow (dsp_settings_load_active_flow nvs s)
      else if nvs.create_mutex
      then start_flow (dsp_settings_load_active_flow nvs (record s { mutex = true }))
      else (no_mem, s)
