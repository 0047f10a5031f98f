-- ===== src/Player/Apll/Follows.antt =====
-- The APLL has the coefficients of the direction that components/lightsnapcast/player.c keeps.
use snapclient.Base.{
  ◌≡◌, refl, ap, ◌∙◌, arith, some, true, Bool-cases, inl, inr, if◌then◌else◌, List, [], ◌∷◌,
}
use snapclient.Base.Int.{ℤ, pos, negsuc}
use snapclient.Player.Apll.{Coefficients, Predefined, Apll, same_dir, adjust_apll, reset_apll}

-- The coefficients of a direction: more samples in a second for 1, fewer for -1, and the nominal ones otherwise.
abbrev pub speed_of : Predefined → ℤ → Coefficients
speed_of p direction =
    if same_dir direction (pos 1)
    then p.upper
    else if same_dir direction (negsuc 0)
    then p.lower
    else p.normal

-- The APLL follows the direction.
abbrev pub Follows : Predefined → Apll → Type 0
Follows p a = a.set_to ≡ some (speed_of p a.current_dir)

adjusted :
    (p : Predefined) (direction : ℤ) (a : Apll)
    → Follows p a
    → Follows p (adjust_apll p direction a)
unfolding adjust_apll
adjusted p direction a h = elim (Bool-cases (same_dir a.current_dir direction)) [
  | inl e ↦ rw e h
  | inr ne ↦ elim (Bool-cases (same_dir direction (pos 1))) [
    | inl up ↦ rw (ne, up) (rw up refl)
    | inr nup ↦ elim (Bool-cases (same_dir direction (negsuc 0))) [
      | inl down ↦ rw (ne, nup, down) (rw (nup, down) refl)
      | inr ndown ↦ rw (ne, nup, ndown) refl
    ]
  ]
]

same_dir_eq : (a b : ℤ) → same_dir a b ≡ true → a ≡ b
same_dir_eq (pos a) (pos b) e = ground arith
same_dir_eq (negsuc a) (negsuc b) e = ground arith
same_dir_eq (pos a) (negsuc b) e = cc
same_dir_eq (negsuc a) (pos b) e = cc

-- A call leaves the APLL at the coefficients of the direction that was asked for.
adjusted_to :
    (p : Predefined) (direction : ℤ) (a : Apll)
    → Follows p a
    → (adjust_apll p direction a).set_to ≡ some (speed_of p direction)
unfolding adjust_apll
adjusted_to p direction a h = elim (Bool-cases (same_dir a.current_dir direction)) [
  | inl e ↦ rw e (h ∙ ap (λ (d : ℤ). some (speed_of p d)) (same_dir_eq a.current_dir direction e))
  | inr ne ↦ elim (Bool-cases (same_dir direction (pos 1))) [
    | inl up ↦ rw (ne, up) refl
    | inr nup ↦ elim (Bool-cases (same_dir direction (negsuc 0))) [
      | inl down ↦ rw (ne, nup, down) refl
      | inr ndown ↦ rw (ne, nup, ndown) refl
    ]
  ]
]

-- The calls of `adjust_apll`, the last one first, behind the one at the start of the task.
abbrev pub adjusted_by : Predefined → Apll → List ℤ → Apll
adjusted_by p a [] = reset_apll p a
adjusted_by p a (d ∷ ds) = adjust_apll p d (adjusted_by p a ds)

adjusted_by-Follows : (p : Predefined) (a : Apll) (ds : List ℤ) → Follows p (adjusted_by p a ds)
unfolding reset_apll adjust_apll
adjusted_by-Follows p a [] = refl
adjusted_by-Follows p a (d ∷ ds) = adjusted p d (adjusted_by p a ds) (adjusted_by-Follows p a ds)

-- Whatever the APLL was set to before the task started, and in whatever order the directions come: behind a call the
-- APLL has the coefficients of the direction of that call, although a call for the direction that is kept already
-- does not set them.
pub adjust_apll_lem :
    (p : Predefined) (a : Apll) (ds : List ℤ) (d : ℤ)
    → (adjust_apll p d (adjusted_by p a ds)).set_to ≡ some (speed_of p d)
adjust_apll_lem p a ds d = adjusted_to p d (adjusted_by p a ds) (adjusted_by-Follows p a ds)
