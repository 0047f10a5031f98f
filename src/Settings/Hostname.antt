-- ===== src/Settings/Hostname.antt =====
-- The host names that components/settings_manager/settings_manager.c takes.
use snapclient.Base.{
  ℕ, suc, ◌-◌, ◌≤◌, ◌<◌, ◌≡◌, ◌≢◌, ◌↔◌, ◌⊎◌, inl, inr, refl, ap, ◌∙◌, arith, List, [], ◌∷◌, ◌++◌,
  some, Bool, true, false, Bool-cases, ltb, ◌==◌, ◌||◌, length, length-append, get_or,
}
use snapclient.Settings.{all_valid, hyphen, validate_hostname}

-- A label of RFC 1123: 1 to 63 letters, digits and hyphens, with no hyphen at its start or end.
pub record IsHostname (isalnum : ℕ → Bool) (name : List ℕ) : Type 0 where
  pub not_empty : 0 < length name
  pub not_long : length name ≤ 63
  pub start : (rest : List ℕ) → name ≢ hyphen ∷ rest
  pub finish : (rest : List ℕ) → name ≢ rest ++ hyphen ∷ []
  pub characters :
      (before after : List ℕ) (c : ℕ)
      → name ≡ before ++ c ∷ after
      → (isalnum c ≡ true) ⊎ (c ≡ hyphen)

is_false : ¬ (false ≡ true)
is_false e = cc

module _ (isalnum : ℕ → Bool) where
  all_valid-cons :
      (x : ℕ) (name : List ℕ)
      → all_valid isalnum (x ∷ name) ≡ true
      → ((isalnum x ≡ true) ⊎ (x ≡ hyphen)) × (all_valid isalnum name ≡ true)
  all_valid-cons x name v = elim (Bool-cases (isalnum x)) [
    | inl alnum ↦ (inl alnum, rw alnum at v)
    | inr other ↦ elim (Bool-cases (x == hyphen)) [
      | inl is_hyphen ↦ (inr (ground (arith, is_hyphen)), rw (other, is_hyphen) at v)
      | inr bad ↦ absurd (is_false (rw (other, bad) at v))
    ]
  ]

  all_valid-splits :
      (name before after : List ℕ) (c : ℕ)
      → all_valid isalnum name ≡ true
      → name ≡ before ++ c ∷ after
      → (isalnum c ≡ true) ⊎ (c ≡ hyphen)
  all_valid-splits [] [] after c v e = cc
  all_valid-splits [] (b ∷ before) after c v e = cc
  all_valid-splits (x ∷ name) [] after c v e =
      let k : x ≡ c = cc in rw⁻¹ k (all_valid-cons x name v).0
  all_valid-splits (x ∷ name) (b ∷ before) after c v e =
      let k : name ≡ before ++ c ∷ after = cc in
      all_valid-splits name before after c (all_valid-cons x name v).1 k

  splits-all_valid :
      (name : List ℕ)
      → ((before after : List ℕ) (c : ℕ)
          → name ≡ before ++ c ∷ after
          → (isalnum c ≡ true) ⊎ (c ≡ hyphen))
      → all_valid isalnum name ≡ true
  splits-all_valid [] h = refl
  splits-all_valid (x ∷ name) h =
      let rest =
        splits-all_valid name (λ before after c e. h (x ∷ before) after c (ap (◌∷◌ x) e)) in
      elim (h [] name x refl) [
        | inl alnum ↦ rw alnum rest
        | inr is_hyphen ↦
            let k : (x == hyphen) ≡ true = ground (arith, is_hyphen) in
            elim (Bool-cases (isalnum x)) [
              | inl alnum ↦ rw alnum rest
              | inr other ↦ rw (other, k) rest
            ]
      ]

at-length : (rest : List ℕ) (c : ℕ) → get_or (rest ++ c ∷ []) (length rest) 0 ≡ c
at-length [] c = refl
at-length (x ∷ rest) c = at-length rest c

-- The last element of a list that is not empty.
last-splits :
    (x : ℕ) (xs : List ℕ)
    → (rest : List ℕ) × (x ∷ xs ≡ rest ++ get_or (x ∷ xs) (length (x ∷ xs) - 1) 0 ∷ [])
last-splits x [] = ([], refl)
last-splits x (y ∷ ys) =
    let (rest, e) = last-splits y ys in
    let k : length (x ∷ y ∷ ys) - 1 ≡ suc (length (y ∷ ys) - 1) = omega arith in
    (x ∷ rest, rw k (ap (◌∷◌ x) e))

last-append : (rest : List ℕ) (c : ℕ) → get_or (rest ++ c ∷ []) (length (rest ++ c ∷ []) - 1) 0 ≡ c
last-append rest c =
    let k : length (rest ++ c ∷ []) - 1 ≡ length rest =
      omega (arith, length-append rest (c ∷ [])) in
    rw k (at-length rest c)

module _ (isalnum : ℕ → Bool) where
  valid-IsHostname :
      (name : List ℕ) → validate_hostname isalnum (some name) ≡ true → IsHostname isalnum name
  unfolding validate_hostname
  valid-IsHostname name v = elim (Bool-cases (length name == 0 || ltb 63 (length name))) [
    | inl wrong_length ↦ absurd (is_false (rw wrong_length at v))
    | inr good_length ↦
        elim (Bool-cases (get_or name 0 0 == hyphen || get_or name (length name - 1) 0 == hyphen)) [
          | inl wrong_end ↦ absurd (is_false (rw (good_length, wrong_end) at v))
          | inr good_ends ↦
              let characters = rw (good_length, good_ends) at v in
              let not_empty : 0 < length name = ground (arith, good_length) in
              let not_long : length name ≤ 63 = ground (arith, good_length) in
              record {
                not_empty = not_empty;
                not_long = not_long;
                start = λ rest e. ground (arith, good_ends, ap (λ xs. get_or xs 0 0) e);
                finish = λ rest e. ground (arith, good_ends, e, last-append rest hyphen);
                characters =
                    λ before after c e. all_valid-splits isalnum name before after c characters e;
              }
        ]
  ]

  IsHostname-valid :
      (name : List ℕ) → IsHostname isalnum name → validate_hostname isalnum (some name) ≡ true
  unfolding validate_hostname
  IsHostname-valid [] h = absurd (omega (arith, h.not_empty))
  IsHostname-valid (x ∷ xs) h =
      let good_length : (length (x ∷ xs) == 0 || ltb 63 (length (x ∷ xs))) ≡ false =
        ground (arith, h.not_long) in
      let starts : (x == hyphen) ≡ false = elim (Bool-cases (x == hyphen)) [
        | inl e ↦ absurd (h.start xs (ap (λ y. y ∷ xs) (ground (arith, e))))
        | inr e ↦ e
      ] in
      let (rest, k) = last-splits x xs in
      let last = get_or (x ∷ xs) (length (x ∷ xs) - 1) 0 in
      let finishes : (last == hyphen) ≡ false = elim (Bool-cases (last == hyphen)) [
        | inl e ↦ absurd (h.finish rest (k ∙ ap (λ y. rest ++ y ∷ []) (ground (arith, e))))
        | inr e ↦ e
      ] in
      let valid = splits-all_valid isalnum (x ∷ xs) h.characters in
      rw (good_length, starts, finishes) (rw starts at valid)

  -- The names that are taken are the labels of RFC 1123, and no others.
  pub validate_hostname_iff :
      (name : List ℕ) → (validate_hostname isalnum (some name) ≡ true) ↔ IsHostname isalnum name
  validate_hostname_iff name = (valid-IsHostname name, IsHostname-valid name)
