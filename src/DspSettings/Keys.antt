-- ===== src/DspSettings/Keys.antt =====
-- The keys of dsp_processor_settings.c differ.
use Prim.Native.String.{String}
use snapclient.Base.{ℕ, ◌+◌, get_or, List, [], ◌∷◌, true, ◌≡◌, ap, arith}
use snapclient.DspSettings.{is_flow, key_active, make_flow_key}

-- `%d` of a flow's number is one digit.
abbrev pub PrintsDigits : (ℕ → List ℕ) → Type 0
PrintsDigits print = (n : ℕ) → is_flow n ≡ true → print n ≡ (48 + n) ∷ []

apart : (i : ℕ) (key other : List ℕ) → ¬ (get_or key i 0 ≡ get_or other i 0) → ¬ (key ≡ other)
apart i key other differs same = differs (ap (λ k. get_or k i 0) same)

module _ (print : ℕ → List ℕ) (digits : PrintsDigits print) (flow : ℕ)
    (valid : is_flow flow ≡ true) where
  abbrev key : String → List ℕ
  key param = make_flow_key print flow param

  pub gain_1-fc_1 : ¬ (key "gain_1" ≡ key "fc_1")
  gain_1-fc_1 = rw (digits flow valid) (apart 7 _ _ (omega arith))

  pub fc_3-fc_1 : ¬ (key "fc_3" ≡ key "fc_1")
  fc_3-fc_1 = rw (digits flow valid) (apart 10 _ _ (omega arith))

  pub gain_3-fc_1 : ¬ (key "gain_3" ≡ key "fc_1")
  gain_3-fc_1 = rw (digits flow valid) (apart 7 _ _ (omega arith))

  pub fc_3-gain_1 : ¬ (key "fc_3" ≡ key "gain_1")
  fc_3-gain_1 = rw (digits flow valid) (apart 7 _ _ (omega arith))

  pub gain_3-gain_1 : ¬ (key "gain_3" ≡ key "gain_1")
  gain_3-gain_1 = rw (digits flow valid) (apart 12 _ _ (omega arith))

  pub gain_3-fc_3 : ¬ (key "gain_3" ≡ key "fc_3")
  gain_3-fc_3 = rw (digits flow valid) (apart 7 _ _ (omega arith))

  pub flow_key-active : (param : String) → ¬ (key param ≡ key_active)
  flow_key-active param = apart 0 _ _ (omega arith)

  pub key_active-flow : (param : String) → ¬ (key_active ≡ key param)
  key_active-flow param = apart 0 _ _ (omega arith)
