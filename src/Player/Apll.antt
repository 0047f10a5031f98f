-- ===== src/Player/Apll.antt =====
-- The speed of the sound in components/lightsnapcast/player.c, where it is tuned by the APLL: `adjust_apll`. The
-- coefficients are set by ESP-IDF's `rtc_clk_apll_coeff_set`: the last ones set are kept here.
pub mod Follows
use snapclient.Base.{ℕ, Option, none, some, Bool, true, false, ◌==◌, ◌&&◌, if◌then◌else◌}
use snapclient.Base.Int.{ℤ, pos, negsuc}

-- `o_div`, `sdm0`, `sdm1` and `sdm2`.
pub record Coefficients : Type 0 where
  pub o_div : ℕ
  pub sdm0 : ℕ
  pub sdm1 : ℕ
  pub sdm2 : ℕ

-- `apll_normal_predefine`, and the two rows of `apll_corr_predefine`: for a higher and for a lower sample rate.
pub record Predefined : Type 0 where
  pub normal : Coefficients
  pub upper : Coefficients
  pub lower : Coefficients

-- `currentDir`, and what the APLL was last set to.
pub record Apll : Type 0 where
  pub current_dir : ℤ
  pub set_to : Option Coefficients

abbrev pub same_dir : ℤ → ℤ → Bool
same_dir (pos a) (pos b) = a == b
same_dir (negsuc a) (negsuc b) = a == b
same_dir (pos a) (negsuc b) = false
same_dir (negsuc a) (pos b) = false

unfoldable pub adjust_apll : Predefined → ℤ → Apll → Apll
adjust_apll p direction a =
    if same_dir a.current_dir direction
    then a
    else if same_dir direction (pos 1)
    then record { current_dir = direction; set_to = some p.upper }
    else if same_dir direction (negsuc 0)
    then record { current_dir = direction; set_to = some p.lower }
    else record { current_dir = pos 0; set_to = some p.normal }

-- At the start of the task and for another format, `currentDir` is set to 1 first, so that the APLL is set in any case.
unfoldable pub reset_apll : Predefined → Apll → Apll
unfolding adjust_apll
reset_apll p a = adjust_apll p (pos 0) (record a { current_dir = pos 1 })
