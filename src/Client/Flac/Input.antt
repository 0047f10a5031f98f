-- ===== src/Client/Flac/Input.antt =====
-- The FLAC decoder of main/main.c is given the chunk's bytes in their order.
use snapclient.Base.{
  ℕ, zero, suc, ◌+◌, ◌≤◌, ◌<◌, ◌==◌, ◌≡◌, refl, ap, ◌∙◌, List, [], ◌∷◌, ◌++◌, Option, none, some,
  false, Bool-cases, leb, length, take, drop, length-drop, take-add, drop-add, arith, inl, inr,
}
use mathlib.Core.Path.{subst}
use snapclient.Parser.Chunk.{DecoderData}
use snapclient.Client.Flac.{FlacState, read_callback}

-- What calls that ask for so many bytes are given one after the other, and the state after them.
unfoldable pub read_all : (List ℕ → Option (List ℕ)) → List ℕ → FlacState → List ℕ × FlacState
read_all shrink [] s = ([], s)
read_all shrink (asked ∷ more) s =
    let r = read_callback shrink asked s in
    let rest = read_all shrink more r.after in (r.copied ++ rest.0, rest.1)

abbrev pub sum : List ℕ → ℕ
sum [] = 0
sum (n ∷ ns) = n + sum ns

-- The bytes that the decoder has not read yet; no memory is held if there are none.
pub data IsLeft (d : DecoderData) : List ℕ → Type 0 where
  all_read : d.in_data ≡ none → d.bytes ≡ 0 → IsLeft d []
  part : (bs : List ℕ) → d.in_data ≡ some bs → d.bytes ≡ length bs → 0 < length bs → IsLeft d bs

take-all : {A : Type 0} (n : ℕ) (xs : List A) → length xs ≤ n → (take n xs ≡ xs) × (drop n xs ≡ [])
take-all zero [] h = (refl, refl)
take-all zero (x ∷ xs) h = absurd (omega (arith, h))
take-all (suc n) [] h = (refl, refl)
take-all (suc n) (x ∷ xs) h = let (a, b) = take-all n xs (omega (arith, h)) in (ap (◌∷◌ x) a, b)

abbrev no_bytes : List ℕ
no_bytes = []

take-nil : (n : ℕ) → (take n no_bytes ≡ []) × (drop n no_bytes ≡ [])
take-nil n = take-all n [] (omega arith)

module _ (shrink : List ℕ → Option (List ℕ)) where
  read_callback-IsLeft :
      (asked : ℕ) (s : FlacState) (bs : List ℕ)
      → ((xs : List ℕ) → shrink xs ≡ some xs)
      → IsLeft s.decoder_chunk bs
      → ((read_callback shrink asked s).copied ≡ take asked bs)
        × IsLeft (read_callback shrink asked s).after.decoder_chunk (drop asked bs)
  unfolding read_callback
  read_callback-IsLeft asked s [] keeps (all_read e l) =
      let (a, b) = take-nil asked in rw (e, a, b) (refl, all_read refl l)
  read_callback-IsLeft asked s _ keeps (part bs e l more) =
      let full : (length bs == 0) ≡ false = ground (arith, more) in
      elim (Bool-cases (leb (length bs) asked)) [
        | inl fits ↦
            let h : length bs ≤ asked = ground (arith, fits) in
            let (a, b) = take-all asked bs h in
            let (c, d) = take-all (length bs) bs (omega arith) in
            rw (e, l, full, fits, a, b, c) (refl, all_read refl refl)
        | inr short ↦
            let h : asked < length bs = ground (arith, short) in
            let k = length-drop asked bs in
            rw (e, l, full, short)
              (
                refl,
                part (drop asked bs) (keeps (drop asked bs)) (omega (arith, k))
                    (omega (arith, k, h)),
              )
      ]

  -- However many bytes the decoder asks for in each call, and where memory can be made smaller: it is given the
  -- chunk's bytes in their order, as many as it asked for in all, or all that there are. What is left is held
  -- for later calls, and nothing is held when all is read.
  pub read_all_lem :
      (asks : List ℕ) (s : FlacState) (bs : List ℕ)
      → ((xs : List ℕ) → shrink xs ≡ some xs)
      → IsLeft s.decoder_chunk bs
      → ((read_all shrink asks s).0 ≡ take (sum asks) bs)
        × IsLeft (read_all shrink asks s).1.decoder_chunk (drop (sum asks) bs)
  unfolding read_all
  read_all_lem [] s bs keeps left = (refl, left)
  read_all_lem (asked ∷ more) s bs keeps left =
      let (a, l) = read_callback-IsLeft asked s bs keeps left in
      let (b, m) = read_all_lem more (read_callback shrink asked s).after (drop asked bs) keeps l in
      (
        ap (λ xs. xs ++ (read_all shrink more (read_callback shrink asked s).after).0) a
            ∙ ap (◌++◌ (take asked bs)) b
            ∙ take-add asked (sum more) bs,
        subst (IsLeft (read_all shrink more (read_callback shrink asked s).after).1.decoder_chunk)
            (drop-add asked (sum more) bs) m,
      )
