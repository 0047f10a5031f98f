-- ===== src/Connection/Segments.antt =====
-- The segments of a network buffer, and how `fill_buffer` of main/connection_handler.c goes through them.
use snapclient.Base.{
  ℕ, zero, suc, ◌≤◌, ◌<◌, ◌≡◌, ap, ◌∙◌, List, [], ◌∷◌, ◌++◌, Option, none, some, Bool, true, false,
  length, arith, if◌then◌else◌,
}
use snapclient.Connection.{Lwip, Connection, success, err_ok, err_other, move, fill_buffer}

-- The bytes of the segments that can be read.
unfoldable pub joined : List (Option (List ℕ)) → List ℕ
joined [] = []
joined (none ∷ ss) = joined ss
joined (some bytes ∷ ss) = bytes ++ joined ss

module _ {Net Buf : Type 0} (lwip : Lwip Net Buf) where
  -- From the place in a buffer on there are these segments.
  abbrev pub Holds : Option Buf → List (Option (List ℕ)) → Type 0
  Holds place [] = place ≡ none
  Holds place (s ∷ ss) =
      (buf : Buf) × (place ≡ some buf) × (lwip.segment buf ≡ s) × Holds (lwip.next buf) ss

  -- Where the next segment is to be looked for.
  abbrev pub place_in : Bool → Option Buf → Option Buf
  place_in processed none = none
  place_in processed (some buf) = if processed then lwip.next buf else some (lwip.first buf)

  abbrev pub ahead : Connection Buf → Option Buf
  ahead c = place_in c.first_netbuf_processed c.first_net_buf

  abbrev pub moved : Connection Buf → Buf → Connection Buf
  moved c buf = record c { first_net_buf = some buf; first_netbuf_processed = true }

  place_in-move :
      (o : Option Buf) (c : Connection Buf) (p : Bool) (buf : Buf)
      → place_in p o ≡ some buf
      → move lwip (record c { first_net_buf = o; first_netbuf_processed = p }) ≡ some (moved c buf)
  unfolding move
  place_in-move none c p buf e = cc
  place_in-move (some b) c true buf e = rw e
  place_in-move (some b) c false buf e =
      ap (λ (o : Option Buf). elim o [ none ↦ none | some b' ↦ some (moved c b') ]) e

  move-ahead :
      (c : Connection Buf) (buf : Buf) → ahead c ≡ some buf → move lwip c ≡ some (moved c buf)
  move-ahead c buf e = place_in-move c.first_net_buf c c.first_netbuf_processed buf e

  fill_buffer-reads :
      (fuel : ℕ) (c : Connection Buf) (buf : Buf) (bytes : List ℕ)
      → ahead c ≡ some buf
      → lwip.segment buf ≡ some bytes
      → fill_buffer lwip (suc fuel) c
        ≡ (success, record (moved c buf) { start = bytes; rc1 = err_ok })
  unfolding fill_buffer
  fill_buffer-reads fuel c buf bytes e q = rw (fill_buffer, move-ahead c buf e, q)

  fill_buffer-skips :
      (fuel : ℕ) (c : Connection Buf) (buf : Buf)
      → ahead c ≡ some buf
      → lwip.segment buf ≡ none
      → fill_buffer lwip (suc fuel) c
        ≡ fill_buffer lwip fuel (record (moved c buf) { rc1 = err_other })
  unfolding fill_buffer
  fill_buffer-skips fuel c buf e q = rw (fill_buffer, move-ahead c buf e, q)

  -- The next segments are found, up to one with bytes or without, if a byte is to come.
  pub fill_buffer-finds :
      (ss : List (Option (List ℕ))) (fuel b : ℕ) (bs : List ℕ) (c : Connection Buf)
      → Holds (ahead c) ss
      → joined ss ≡ b ∷ bs
      → length ss ≤ fuel
      → (c' : Connection Buf) × (rest : List (Option (List ℕ))) × (fill_buffer lwip fuel c
          ≡ (success, c'))
        × Holds (ahead c') rest
        × (c'.start ++ joined rest ≡ b ∷ bs)
        × (length rest < length ss)
  unfolding joined
  fill_buffer-finds [] fuel b bs c h e l = cc
  fill_buffer-finds (s ∷ ss) zero b bs c h e l = absurd (omega arith)
  fill_buffer-finds (some bytes ∷ ss) (suc fuel) b bs c (buf, p, q, h) e l = (
    record (moved c buf) { start = bytes; rc1 = err_ok },
    ss,
    fill_buffer-reads fuel c buf bytes p q,
    h,
    e,
    omega arith,
  )
  fill_buffer-finds (none ∷ ss) (suc fuel) b bs c (buf, p, q, h) e l =
      let (c', rest, f, h', e', l') =
        fill_buffer-finds ss fuel b bs (record (moved c buf) { rc1 = err_other }) h e
          (omega arith) in
      (c', rest, fill_buffer-skips fuel c buf p q ∙ f, h', e', omega arith)
