-- ===== src/Parser/Source.antt =====
-- What the parser takes from its source: a read of `n` bytes decodes the next `n` of them, and asks
-- for a new connection if the source stops before.
use snapclient.Base.{
  ℕ, zero, suc, ◌+◌, ◌≤◌, ◌<◌, ◌≡◌, refl, List, [], ◌∷◌, arith, Option, none, some, length, take,
  drop, get_or, ◌⊎◌, inl, inr, Option-cases, length-take, length-drop,
}
use native.Mathlib.Decide.{dec_le}
use snapclient.Base.Bytes.{join_two, join_four}
use snapclient.Parser.{
  parsed, restart, Parse, ◌>>=◌, pure, read_byte, read_uint16_le, read_uint32_le, read_timestamp,
}
use snapclient.Message.{Tv}

-- Decode `n` bytes, and then the others.
abbrev pub decode_then : {A B : Type 0} → ℕ → (List ℕ → A) → (A → List ℕ → B) → List ℕ → B
decode_then n f g bs = g (f (take n bs)) (drop n bs)

abbrev pub decode_byte : List ℕ → ℕ
decode_byte bs = get_or bs 0 0

abbrev pub decode_uint16 : List ℕ → ℕ
decode_uint16 = decode_then 1 decode_byte λ b0. decode_then 1 decode_byte λ b1. λ _. join_two b0 b1

abbrev pub decode_uint32 : List ℕ → ℕ
decode_uint32 = decode_then 1 decode_byte λ b0.
    decode_then 1 decode_byte λ b1.
      decode_then 1 decode_byte λ b2. decode_then 1 decode_byte λ b3. λ _. join_four b0 b1 b2 b3

abbrev pub decode_timestamp : List ℕ → Tv
decode_timestamp =
    decode_then 4 decode_uint32
      λ sec. decode_then 4 decode_uint32 λ usec. λ _. record { sec = sec; usec = usec }

module _ {W : Type 0} (get_byte : W → Option ℕ × W) where
  -- From `w` the source yields the bytes, and is at `w'` then.
  abbrev pub Feeds : W → List ℕ → W → Type 0
  Feeds w [] w' = w ≡ w'
  Feeds w (b ∷ bs) w' = ((get_byte w).0 ≡ some b) × Feeds (get_byte w).1 bs w'

  -- It yields the bytes and then fails, at `w'`.
  abbrev pub Stops : W → List ℕ → W → Type 0
  Stops w [] w' = ((get_byte w).0 ≡ none) × ((get_byte w).1 ≡ w')
  Stops w (b ∷ bs) w' = ((get_byte w).0 ≡ some b) × Stops (get_byte w).1 bs w'

  pub record Consumes {A : Type 0} (n : ℕ) (p : Parse W A) (decode : List ℕ → A) : Type 0 where
    pub whole :
        (w w' : W) (bs : List ℕ) → Feeds w bs w' → length bs ≡ n → p w ≡ parsed (decode bs) w'
    pub cut : (w w' : W) (bs : List ℕ) → Stops w bs w' → length bs < n → p w ≡ restart w'

  pub Feeds-split :
      (n : ℕ) (w w' : W) (bs : List ℕ)
      → Feeds w bs w'
      → (v : W) × Feeds w (take n bs) v × Feeds v (drop n bs) w'
  Feeds-split zero w w' bs h = (w, refl, h)
  Feeds-split (suc n) w w' [] h = (w', h, refl)
  Feeds-split (suc n) w w' (b ∷ bs) (e, h) =
      let (v, l, r) = Feeds-split n (get_byte w).1 w' bs h in (v, (e, l), r)

  pub Stops-split :
      (n : ℕ) (w w' : W) (bs : List ℕ)
      → Stops w bs w'
      → n ≤ length bs
      → (v : W) × Feeds w (take n bs) v × Stops v (drop n bs) w'
  Stops-split zero w w' bs h le = (w, refl, h)
  Stops-split (suc n) w w' [] h le = absurd (omega arith)
  Stops-split (suc n) w w' (b ∷ bs) (e, h) le =
      let (v, l, r) = Stops-split n (get_byte w).1 w' bs h (omega arith) in (v, (e, l), r)

  -- Of any source, `n` bytes are read or it stops before.
  pub source_cases :
      (n : ℕ) (w : W)
      → ((bs : List ℕ) × (w' : W) × Feeds w bs w' × (length bs ≡ n))
        ⊎ ((bs : List ℕ) × (w' : W) × Stops w bs w' × (length bs < n))
  source_cases zero w = inl ([], w, refl, refl)
  source_cases (suc n) w = elim (Option-cases (get_byte w).0) [
    | inl e ↦ inr ([], (get_byte w).1, (e, refl), omega arith)
    | inr (b, e) ↦ elim (source_cases n (get_byte w).1) [
      | inl (bs, w', h, l) ↦ inl (b ∷ bs, w', (e, h), omega arith)
      | inr (bs, w', h, l) ↦ inr (b ∷ bs, w', (e, h), omega arith)
    ]
  ]

  pub Consumes-pure : {A : Type 0} (a : A) → Consumes 0 (pure a) (λ _. a)
  Consumes-pure a = record {
    whole = λ w w' bs h l. fed w w' bs h l;
    cut = λ w w' bs h l. absurd (omega arith);
  }
    where
      fed : (w w' : W) (bs : List ℕ) → Feeds w bs w' → length bs ≡ 0 → pure a w ≡ parsed a w'
      fed w w' [] h l = rw h
      fed w w' (b ∷ bs) h l = absurd (omega arith)

  pub Consumes-byte : Consumes 1 (read_byte get_byte) decode_byte
  unfolding read_byte
  Consumes-byte = record {
    whole = λ w w' bs h l. fed w w' bs h l;
    cut = λ w w' bs h l. stopped w w' bs h l;
  }
    where
      fed :
          (w w' : W) (bs : List ℕ)
          → Feeds w bs w'
          → length bs ≡ 1
          → read_byte get_byte w ≡ parsed (get_or bs 0 0) w'
      fed w w' [] h l = absurd (omega arith)
      fed w w' (b ∷ []) (e, h) l = rw (e, read_byte, h)
      fed w w' (b ∷ c ∷ bs) h l = absurd (omega arith)

      stopped :
          (w w' : W) (bs : List ℕ)
          → Stops w bs w'
          → length bs < 1
          → read_byte get_byte w ≡ restart w'
      stopped w w' [] (e, h) l = rw (e, read_byte, h)
      stopped w w' (b ∷ bs) h l = absurd (omega arith)

  pub Consumes-then :
      {A B : Type 0} (n m : ℕ) {p : Parse W A} {q : A → Parse W B} {f : List ℕ → A}
      {g : A → List ℕ → B}
      → Consumes n p f
      → ((a : A) → Consumes m (q a) (g a))
      → Consumes (n + m) (p >>= q) (decode_then n f g)
  Consumes-then n m {p} {q} {f} {g} hp hq = record {
    whole = λ w w' bs h l.
        let (v, l', r) = Feeds-split n w w' bs h in
        rw (hp.whole w v (take n bs) l' (omega (arith, length-take n bs)))
          ((hq (f (take n bs))).whole v w' (drop n bs) r (omega (arith, length-drop n bs)));
    cut = λ w w' bs h l. elim (dec_le n (length bs)) [
      | yes le ↦
          let (v, l', r) = Stops-split n w w' bs h le in
          rw (hp.whole w v (take n bs) l' (omega (arith, length-take n bs)))
            ((hq (f (take n bs))).cut v w' (drop n bs) r (omega (arith, length-drop n bs)))
      | no lt ↦ rw (hp.cut w w' bs h (omega arith))
    ];
  }

  pub Consumes-uint16 : Consumes 2 (read_uint16_le get_byte) decode_uint16
  unfolding read_uint16_le
  Consumes-uint16 =
      Consumes-then 1 1 Consumes-byte
        λ b0. Consumes-then 1 0 Consumes-byte λ b1. Consumes-pure (join_two b0 b1)

  pub Consumes-uint32 : Consumes 4 (read_uint32_le get_byte) decode_uint32
  unfolding read_uint32_le
  Consumes-uint32 = Consumes-then 1 3 Consumes-byte λ b0. Consumes-then 1 2 Consumes-byte λ b1.
      Consumes-then 1 1 Consumes-byte
        λ b2. Consumes-then 1 0 Consumes-byte λ b3. Consumes-pure (join_four b0 b1 b2 b3)

  pub Consumes-timestamp : Consumes 8 (read_timestamp get_byte) decode_timestamp
  unfolding read_timestamp
  Consumes-timestamp = Consumes-then 4 4 Consumes-uint32 λ sec.
      Consumes-then 4 0 Consumes-uint32 λ usec. Consumes-pure (record { sec = sec; usec = usec })
