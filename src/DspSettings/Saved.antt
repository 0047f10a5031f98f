-- ===== src/DspSettings/Saved.antt =====
-- What reading the parameters of a flow gives, in dsp_processor_settings.c.
use Prim.Native.String.{String}
use snapclient.Base.{ℕ, List, Option, none, some, true, false, ◌&&◌, not, ◌≡◌, refl}
use snapclient.Settings.{EspErr}
use snapclient.DspSettings.{
  DspNvs, Floats, FilterParams, DspSettings, is_flow, make_flow_key, load_opened,
  dsp_settings_load_flow_param,
}
use snapclient.DspSettings.Params.{loaded_or, dsp_settings_get_flow_params}
use snapclient.DspSettings.Access.{IsDspNvs, Finds, load_opened-Finds, load_i32-opened}

module _ {N R : Type 0} (nvs : DspNvs N) (content : List ℕ → N → Option ℕ) (floats : Floats R)
    (print : ℕ → List ℕ) where
  abbrev pub value_or : R → Option ℕ → R
  value_or default none = default
  value_or default (some v) = floats.of_int v

  -- The parameters of a flow by what is stored, the defaults in place of what is missing.
  abbrev pub saved_params : ℕ → N → FilterParams R
  saved_params flow n = record {
    fc_1 = value_or floats.bass_freq (content (make_flow_key print flow "fc_1") n);
    gain_1 = value_or floats.gain (content (make_flow_key print flow "gain_1") n);
    fc_3 = value_or floats.treble_freq (content (make_flow_key print flow "fc_3") n);
    gain_3 = value_or floats.gain (content (make_flow_key print flow "gain_3") n);
  }

  loaded_or-Finds :
      (default : R) (c : Option ℕ) (answer : EspErr × Option ℕ)
      → Finds nvs content c answer
      → loaded_or floats.of_int default answer ≡ value_or default c
  loaded_or-Finds default none (err, none) found = refl
  loaded_or-Finds default none (err, some v) found = rw found.0 refl
  loaded_or-Finds default (some v) answer found = rw found refl

  -- What reading under this key gives.
  abbrev answer : List ℕ → DspSettings N R → EspErr × Option ℕ
  answer key s = load_opened nvs key s.store (nvs.open_read s.store)

  load_flow_param-opened :
      (flow : ℕ) (param : String) (s : DspSettings N R)
      → IsDspNvs nvs content
      → is_flow flow ≡ true
      → s.mutex ≡ true
      → dsp_settings_load_flow_param nvs print flow param s
        ≡ (answer (make_flow_key print flow param) s, s)
  unfolding dsp_settings_load_flow_param
  load_flow_param-opened flow param s law valid there =
      let guard : (s.mutex && not (is_flow flow)) ≡ false = rw (there, valid) refl in
      rw guard (load_i32-opened nvs content (make_flow_key print flow param) s law there)

  value :
      (flow : ℕ) (param : String) (default : R) (s : DspSettings N R)
      → IsDspNvs nvs content
      → loaded_or floats.of_int default (answer (make_flow_key print flow param) s)
        ≡ value_or default (content (make_flow_key print flow param) s.store)
  value flow param default s law =
      loaded_or-Finds default _ (answer (make_flow_key print flow param) s)
        (load_opened-Finds nvs content (make_flow_key print flow param) s.store _ law refl)

  pub dsp_settings_get_flow_params-saved :
      (flow : ℕ) (s : DspSettings N R)
      → IsDspNvs nvs content
      → is_flow flow ≡ true
      → s.mutex ≡ true
      → dsp_settings_get_flow_params nvs floats print flow s ≡ (some (saved_params flow s.store), s)
  unfolding dsp_settings_get_flow_params
  dsp_settings_get_flow_params-saved flow s law valid there =
      rw
        (
          valid,
          load_flow_param-opened flow "fc_1" s law valid there,
          load_flow_param-opened flow "gain_1" s law valid there,
          load_flow_param-opened flow "fc_3" s law valid there,
          load_flow_param-opened flow "gain_3" s law valid there,
          value flow "fc_1" floats.bass_freq s law,
          value flow "gain_1" floats.gain s law,
          value flow "fc_3" floats.treble_freq s law,
          value flow "gain_3" floats.gain s law,
        )
        refl
