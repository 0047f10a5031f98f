-- ===== src/Examples/Dsp.antt =====
-- The parameters of the filters on a concrete flash memory.
use snapclient.Base.{
  ℕ, ◌+◌, ◌==◌, List, [], ◌∷◌, Option, none, some, true, Bool-cases, ◌&&◌, inl, inr, if◌then◌else◌,
  ◌≡◌, refl, sym, ◌∙◌, ap, arith,
}
use mathlib.Core.Path.{ap₂}
use snapclient.Base.Text.{same_text}
use snapclient.Settings.{EspErr, esp_ok, not_found, is_ok}
use snapclient.Settings.Saves.{is_false}
use snapclient.DspSettings.{
  DspNvs, Floats, FilterParams, DspSettings, set_params_for_flow, switch_flow, key_active,
  dsp_settings_get_active_flow,
}
use snapclient.DspSettings.Params.{
  dsp_settings_get_flow_params, dsp_settings_set_flow_params, dsp_settings_switch_active_flow,
  dsp_settings_init,
}
use snapclient.DspSettings.Keys.{PrintsDigits}
use snapclient.DspSettings.Access.{IsDspNvs}
use snapclient.DspSettings.Saved.{saved_params}
use snapclient.DspSettings.Kept.{dsp_settings_set_flow_params-get}
use snapclient.DspSettings.Switched.{dsp_settings_switch_active_flow-get}
use snapclient.DspSettings.Restored.{dsp_settings_init_lem}

abbrev Memory : Type 0
Memory = List ℕ → Option ℕ

same_text_self : (s : List ℕ) → same_text s s ≡ true
same_text_self [] = refl
same_text_self (c ∷ s) = let e : (c == c) ≡ true = ground arith in rw (e, same_text_self s) refl

same_text_sound : (s t : List ℕ) → same_text s t ≡ true → s ≡ t
same_text_sound [] [] e = refl
same_text_sound [] (b ∷ t) e = absurd (is_false e)
same_text_sound (a ∷ s) [] e = absurd (is_false e)
same_text_sound (a ∷ s) (b ∷ t) e = elim (Bool-cases (a == b)) [
  | inl same ↦
      let rest : same_text s t ≡ true = ap (λ x. x && same_text s t) (sym same) ∙ e in
      let first : a ≡ b = ground (arith, same) in
      ap₂ (λ x xs. x ∷ xs) first (same_text_sound s t rest)
  | inr differs ↦ absurd (is_false (ap (λ x. x && same_text s t) (sym differs) ∙ e))
]

abbrev written : List ℕ → ℕ → Memory → Memory
written key v memory k = if same_text key k then some v else memory k

abbrev answer_of : Option ℕ → EspErr × ℕ
answer_of none = (not_found, 0)
answer_of (some v) = (esp_ok, v)

abbrev memory_nvs : DspNvs Memory
memory_nvs = record {
  lock = λ m. (true, m);
  create_mutex = true;
  open_read = λ m. esp_ok;
  open_write = λ m. (esp_ok, m);
  get_i32 = λ key m. answer_of (m key);
  set_i32 = λ key v m. (esp_ok, written key v m);
  commit = λ m. (esp_ok, m);
}

abbrev content : List ℕ → Memory → Option ℕ
content key m = m key

written-same : (key : List ℕ) (v : ℕ) (m : Memory) → written key v m key ≡ some v
written-same key v m = rw (same_text_self key) refl

written-other :
    (key other : List ℕ) (v : ℕ) (m : Memory) → ¬ (key ≡ other) → written key v m other ≡ m other
written-other key other v m differs = elim (Bool-cases (same_text key other)) [
  | inl same ↦ absurd (differs (same_text_sound key other same))
  | inr e ↦ rw e refl
]

memory_nvs-IsDspNvs : IsDspNvs memory_nvs content
memory_nvs-IsDspNvs = record {
  lock_free = λ m. refl;
  open_found = λ key v m here. refl;
  get_found = λ key v m here. ap answer_of here;
  get_missing = λ key m missing. ap (λ c. is_ok (answer_of c).0) missing;
  open_keeps = λ key m. refl;
  commit_keeps = λ key m. refl;
  set_stores = λ key v m ok. written-same key v m;
  set_keeps = λ key other v m differs. written-other key other v m differs;
}

abbrev whole : Floats ℕ
whole = record { of_int = λ v. v; to_int = λ v. v; bass_freq = 300; treble_freq = 4000; gain = 0 }

abbrev digit : ℕ → List ℕ
digit n = (48 + n) ∷ []

digit-PrintsDigits : PrintsDigits digit
digit-PrintsDigits n valid = refl

abbrev loud : FilterParams ℕ
loud = record { fc_1 = 200; gain_1 = 6; fc_3 = 5000; gain_3 = 3 }

abbrev fresh : DspSettings Memory ℕ
fresh = record { mutex = true; store = λ key. none; told = [] }

dsp_settings_set_flow_params-get_example :
    let (ok, s) = dsp_settings_set_flow_params memory_nvs whole digit 0 loud fresh in
    (dsp_settings_get_flow_params memory_nvs whole digit 0 s ≡ (some loud, s)) × (s.told ≡ [])
unfolding dsp_settings_set_flow_params snapclient.DspSettings.dsp_settings_save_flow_param
dsp_settings_set_flow_params-get_example =
    dsp_settings_set_flow_params-get memory_nvs content whole digit 0 loud fresh memory_nvs-IsDspNvs
      digit-PrintsDigits refl

dsp_settings_switch_active_flow-get_example :
    let (err, s) = dsp_settings_switch_active_flow memory_nvs whole digit 2 fresh in
    (dsp_settings_get_active_flow memory_nvs s ≡ (2, s))
    × (s.told
        ≡ switch_flow 2
          ∷ set_params_for_flow 2 (saved_params memory_nvs content whole digit 2 fresh.store)
          ∷ [])
unfolding dsp_settings_switch_active_flow snapclient.DspSettings.dsp_settings_save_active_flow
dsp_settings_switch_active_flow-get_example =
    dsp_settings_switch_active_flow-get memory_nvs content whole digit 2 fresh memory_nvs-IsDspNvs
      digit-PrintsDigits refl

dsp_settings_init_lem_example :
    dsp_settings_init memory_nvs whole digit fresh
    ≡ (esp_ok, record { mutex = true; store = fresh.store; told = switch_flow 0 ∷ [] })
dsp_settings_init_lem_example =
    dsp_settings_init_lem memory_nvs content whole digit fresh memory_nvs-IsDspNvs refl
