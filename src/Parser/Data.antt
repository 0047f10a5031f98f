-- ===== src/Parser/Data.antt =====
-- `read_data` of components/lightsnapcast/snapcast_protocol_parser.c: a block that is filled from the
-- source, one that it cuts short, and one that is too small.
use snapclient.Base.{
  ℕ, zero, suc, ◌+◌, ◌≤◌, ◌<◌, ◌≡◌, refl, ◌∙◌, List, [], ◌∷◌, ◌++◌, arith, Option, some, none,
  length, take, drop, set, length-set, take-set, drop-set, take-append-drop, lt→ltb, ltb-false,
}
use mathlib.Core.List.{append_assoc}
use native.Mathlib.Nat.{add-zero}
use snapclient.Parser.{parsed, restart, fault, read_byte, read_data, read_data_loop}
use snapclient.Parser.Source.{Feeds, Stops}

module _ {W : Type 0} (get_byte : W → Option ℕ × W) where
  pub Feeds-append :
      (xs : List ℕ) (w w' : W) (ys : List ℕ)
      → Feeds get_byte w (xs ++ ys) w'
      → (v : W) × Feeds get_byte w xs v × Feeds get_byte v ys w'
  Feeds-append [] w w' ys h = (w, refl, h)
  Feeds-append (x ∷ xs) w w' ys (e, h) =
      let (v, l, r) = Feeds-append xs (get_byte w).1 w' ys h in (v, (e, l), r)

  pub read_byte-some :
      (w : W) (b : ℕ) → (get_byte w).0 ≡ some b → read_byte get_byte w ≡ parsed b (get_byte w).1
  unfolding read_byte
  read_byte-some w b e = rw (e, read_byte)

  read_byte-none : (w : W) → (get_byte w).0 ≡ none → read_byte get_byte w ≡ restart (get_byte w).1
  unfolding read_byte
  read_byte-none w e = rw (e, read_byte)

  read_data_loop-fills :
      (n i : ℕ) (dest bs : List ℕ) (w w' : W)
      → Feeds get_byte w bs w'
      → length bs ≡ n
      → i + n ≤ length dest
      → read_data_loop get_byte n i dest w ≡ parsed (take i dest ++ (bs ++ drop (i + n) dest)) w'
  unfolding read_data_loop
  read_data_loop-fills zero i dest [] w w' h l le = rw (h, add-zero, take-append-drop)
  read_data_loop-fills zero i dest (b ∷ bs) w w' h l le = absurd (omega arith)
  read_data_loop-fills (suc n) i dest [] w w' h l le = absurd (omega arith)
  read_data_loop-fills (suc n) i dest (b ∷ bs) w w' (e, h) l le =
      let i' : i + 1 ≡ suc i = omega arith in
      let far : suc i + n ≡ i + suc n = omega arith in
      rw (read_byte-some w b e, lt→ltb i (length dest) (omega arith), i')
        (read_data_loop-fills n (suc i) (set dest i b) bs (get_byte w).1 w' h (omega arith)
            (omega (arith, length-set {0} dest i b))
          ∙ rw (
            take-set dest i b (omega arith),
            far,
            drop-set dest i (i + suc n) b (omega arith),
            append_assoc,
          ))

  read_data_loop-Stops :
      (n i : ℕ) (dest bs : List ℕ) (w w' : W)
      → Stops get_byte w bs w'
      → length bs < n
      → i + n ≤ length dest
      → read_data_loop get_byte n i dest w ≡ restart w'
  unfolding read_data_loop
  read_data_loop-Stops zero i dest bs w w' h l le = absurd (omega arith)
  read_data_loop-Stops (suc n) i dest [] w w' (e, h) l le = rw (read_byte-none w e, h)
  read_data_loop-Stops (suc n) i dest (b ∷ bs) w w' (e, h) l le =
      rw (read_byte-some w b e, lt→ltb i (length dest) (omega arith))
        (read_data_loop-Stops n (i + 1) (set dest i b) bs (get_byte w).1 w' h (omega arith)
          (omega (arith, length-set {0} dest i b)))

  read_data_loop-overflows :
      (n i : ℕ) (dest bs : List ℕ) (w w' : W)
      → Feeds get_byte w bs w'
      → i + length bs ≡ length dest + 1
      → length bs ≤ n
      → 0 < length bs
      → read_data_loop get_byte n i dest w ≡ fault w'
  unfolding read_data_loop
  read_data_loop-overflows n i dest [] w w' h l le p = absurd (omega arith)
  read_data_loop-overflows zero i dest (b ∷ bs) w w' h l le p = absurd (omega arith)
  read_data_loop-overflows (suc n) i dest (b ∷ []) w w' (e, h) l le p =
      rw (read_byte-some w b e, ltb-false i (length dest) (omega arith), h)
  read_data_loop-overflows (suc n) i dest (b ∷ c ∷ bs) w w' (e, h) l le p =
      rw (read_byte-some w b e, lt→ltb i (length dest) (omega arith))
        (read_data_loop-overflows n (i + 1) (set dest i b) (c ∷ bs) (get_byte w).1 w' h
          (omega (arith, length-set {0} dest i b)) (omega arith) (omega arith))

  -- The next bytes replace the front of a block that has room for them.
  pub read_data-fills :
      (n : ℕ) (dest bs : List ℕ) (w w' : W)
      → Feeds get_byte w bs w'
      → length bs ≡ n
      → n ≤ length dest
      → read_data get_byte dest n w ≡ parsed (bs ++ drop n dest) w'
  unfolding read_data
  read_data-fills n dest bs w w' h l le =
      let z : 0 + n ≡ n = omega arith in
      rw z at (read_data_loop-fills n 0 dest bs w w' h l (omega arith))

  pub read_data-Stops :
      (n : ℕ) (dest bs : List ℕ) (w w' : W)
      → Stops get_byte w bs w'
      → length bs < n
      → n ≤ length dest
      → read_data get_byte dest n w ≡ restart w'
  unfolding read_data
  read_data-Stops n dest bs w w' h l le = read_data_loop-Stops n 0 dest bs w w' h l (omega arith)

  -- A read that is longer than the block writes behind it, as soon as the source feeds as much.
  pub read_data-overflows :
      (n : ℕ) (dest bs : List ℕ) (w w' : W)
      → Feeds get_byte w bs w'
      → length bs ≡ length dest + 1
      → length dest < n
      → read_data get_byte dest n w ≡ fault w'
  unfolding read_data
  read_data-overflows n dest bs w w' h l le =
      read_data_loop-overflows n 0 dest bs w w' h (omega arith) (omega arith) (omega arith)
