-- ===== src/Connection/Pending.antt =====
-- The bytes that a connection still holds, and how `connection_get_byte` of main/connection_handler.c
-- hands them out.
use snapclient.Base.{
  ℕ, zero, suc, ◌+◌, ◌*◌, ◌≤◌, ◌≡◌, refl, ap, ◌∙◌, List, [], ◌∷◌, ◌++◌, Option, some, Bool, true,
  false, length, arith, ◌⊎◌, inl, inr,
}
use snapclient.Connection.{
  Lwip, Connection, connection_data_received, connection_buffer_filled, Answer, success, err_ok,
  is_ready, first_byte, fill_buffer, round, connection_ensure_byte, connection_get_byte,
}
use snapclient.Connection.Segments.{joined, Holds, ahead, fill_buffer-finds}
use mathlib.Core.List.{head-eq_of_cons-eq, tail-eq_of_cons-eq}
use snapclient.Parser.Source.{Feeds}

module _ {Net Buf : Type 0} (lwip : Lwip Net Buf) (ethernet : Bool) where
  -- The bytes that are left of the buffer at hand, with the fuel that is enough for them.
  pub record Pending (fuel : ℕ) (c : Connection Buf) (bs : List ℕ) : Type 0 where
    pub rest : List (Option (List ℕ))
    pub holds : Holds lwip (ahead lwip c) rest
    pub enough : 2 * length rest + 2 ≤ fuel
    pub place :
        ((c.state ≡ connection_buffer_filled) × (c.start ++ joined rest ≡ bs))
        ⊎ ((c.state ≡ connection_data_received) × (joined rest ≡ bs))

  -- The byte at hand is the next one.
  abbrev pub Ready : Connection Buf → ℕ → List ℕ → ℕ → Type 0
  Ready c b bs n =
      (xs : List ℕ) × (rest : List (Option (List ℕ))) × (c.state ≡ connection_buffer_filled)
      × (c.start ≡ b ∷ xs)
      × Holds lwip (ahead lwip c) rest
      × (xs ++ joined rest ≡ bs)
      × (length rest ≤ n)

  pub ensure_step :
      (fuel : ℕ) (c c' : Connection Buf) (net net' : Net)
      → is_ready c ≡ false
      → round lwip ethernet fuel c net ≡ (success, c', net')
      → connection_ensure_byte lwip ethernet (suc fuel) (c, net)
        ≡ connection_ensure_byte lwip ethernet fuel (c', net')
  unfolding connection_ensure_byte
  ensure_step fuel c c' net net' e r =
      rw (connection_ensure_byte, e, r)
        (ap
          (λ (x : Answer × Connection Buf × Net).
            connection_ensure_byte lwip ethernet fuel (x.1, x.2))
          r)

  ensure_ready :
      (fuel : ℕ) (c : Connection Buf) (net : Net)
      → is_ready c ≡ true
      → connection_ensure_byte lwip ethernet (suc fuel) (c, net)
        ≡ (success, record c { rc1 = err_ok }, net)
  unfolding connection_ensure_byte
  ensure_ready fuel c net e = rw (connection_ensure_byte, e)

  round_fills :
      (fuel : ℕ) (c c' : Connection Buf) (net : Net)
      → c.state ≡ connection_data_received
      → fill_buffer lwip fuel c ≡ (success, c')
      → round lwip ethernet fuel c net
        ≡ (success, record c' { state = connection_buffer_filled }, net)
  unfolding round
  round_fills fuel c c' net s f = rw (round, s, f)

  round_empty :
      (fuel : ℕ) (c : Connection Buf) (net : Net)
      → c.state ≡ connection_buffer_filled
      → round lwip ethernet fuel c net
        ≡ (success, record c { state = connection_data_received }, net)
  unfolding round
  round_empty fuel c net s = rw (round, s)

  not_ready : (c : Connection Buf) → c.state ≡ connection_data_received → is_ready c ≡ false
  not_ready c s = rw s

  not_ready_empty :
      (c : Connection Buf) → c.state ≡ connection_buffer_filled → c.start ≡ [] → is_ready c ≡ false
  not_ready_empty c s e = rw (s, e)

  ready :
      (c : Connection Buf) (b : ℕ) (xs : List ℕ)
      → c.state ≡ connection_buffer_filled
      → c.start ≡ b ∷ xs
      → is_ready c ≡ true
  ready c b xs s e = rw (s, e)

  abbrev pub Found : ℕ → Connection Buf → Net → ℕ → List ℕ → ℕ → Type 0
  Found fuel c net b bs n =
      (c' : Connection Buf) × (connection_ensure_byte lwip ethernet fuel (c, net)
        ≡ (success, c', net))
      × Ready c' b bs n

  Found-later :
      (fuel fuel' n n' b : ℕ) (bs : List ℕ) (c c1 : Connection Buf) (net : Net)
      → connection_ensure_byte lwip ethernet fuel (c, net)
        ≡ connection_ensure_byte lwip ethernet fuel' (c1, net)
      → n' ≤ n
      → Found fuel' c1 net b bs n'
      → Found fuel c net b bs n
  Found-later fuel fuel' n n' b bs c c1 net e l (c', f, (xs, rest, r0, r1, r2, r3, r4)) =
      (c', e ∙ f, (xs, rest, r0, r1, r2, r3, omega arith))

  ensure_filled :
      (start : List ℕ) (n fuel b : ℕ) (bs : List ℕ) (rest : List (Option (List ℕ)))
      (c : Connection Buf) (net : Net)
      → c.start ≡ start
      → c.state ≡ connection_buffer_filled
      → Holds lwip (ahead lwip c) rest
      → start ++ joined rest ≡ b ∷ bs
      → length rest ≤ n
      → (joined rest ≡ b ∷ bs
          → Found fuel (record c { state = connection_data_received }) net b bs n)
      → Found (suc fuel) c net b bs n
  ensure_filled [] n fuel b bs rest c net st sf h e l again =
      let c3 = record c { state = connection_data_received } in
      let next =
        ensure_step fuel c c3 net net (not_ready_empty c sf st) (round_empty fuel c net sf) in
      Found-later (suc fuel) fuel n n b bs c c3 net next (omega arith) (again e)
  ensure_filled (x ∷ xs) n fuel b bs rest c net st sf h e l again = (
    record c { rc1 = err_ok },
    ensure_ready fuel c net (ready c x xs sf st),
    (xs, rest, sf, st ∙ ap (λ (y : ℕ). y ∷ xs) (head-eq_of_cons-eq e), h, tail-eq_of_cons-eq e, l),
  )

  -- A byte of a buffer that is there is found, whatever empty segments are before it.
  pub ensure_data :
      (n fuel b : ℕ) (bs : List ℕ) (ss : List (Option (List ℕ))) (c : Connection Buf) (net : Net)
      → c.state ≡ connection_data_received
      → Holds lwip (ahead lwip c) ss
      → joined ss ≡ b ∷ bs
      → length ss ≤ n
      → 2 * n + 1 ≤ fuel
      → Found fuel c net b bs n
  ensure_data n zero b bs ss c net s h e l k = absurd (omega arith)
  ensure_data zero (suc fuel) b bs [] c net s h e l k = absurd (unfold joined in cc)
  ensure_data zero (suc fuel) b bs (x ∷ ss) c net s h e l k = absurd (omega arith)
  ensure_data (suc n) (suc zero) b bs ss c net s h e l k = absurd (omega arith)
  ensure_data (suc n) (suc (suc fuel)) b bs ss c net s h e l k =
      let (c1, rest, f, h1, e1, l1) =
        fill_buffer-finds lwip ss (suc fuel) b bs c h e (omega arith) in
      let c2 = record c1 { state = connection_buffer_filled } in
      let c3 = record c1 { state = connection_data_received } in
      let next =
        ensure_step (suc fuel) c c2 net net (not_ready c s) (round_fills (suc fuel) c c1 net s f) in
      Found-later (suc (suc fuel)) (suc fuel) (suc n) n b bs c c2 net next (omega arith) (
        ensure_filled c1.start n fuel b bs rest c2 net refl refl h1 e1 (omega arith)
          λ e2. ensure_data n fuel b bs rest c3 net refl h1 e2 (omega arith) (omega arith))

  pub get-Ready :
      (n fuel b : ℕ) (bs : List ℕ) (c c' : Connection Buf) (net net' : Net)
      → connection_ensure_byte lwip ethernet fuel (c, net) ≡ (success, c', net')
      → Ready c' b bs n
      → 2 * n + 2 ≤ fuel
      → (c'' : Connection Buf) × (connection_get_byte lwip ethernet fuel (c, net)
          ≡ (success, some b, c'', net'))
        × Pending fuel c'' bs
  unfolding connection_get_byte
  get-Ready n fuel b bs c c' net net' f (xs, rest, r0, r1, r2, r3, r4) k = (
    record c' { start = xs },
    ap first_byte f ∙ rw r1,
    record { rest = rest; holds = r2; enough = omega arith; place = inl (r0, r3) },
  )

  -- The next byte that is left of the buffer at hand is handed out, and the others are left.
  pub connection_get_byte-Pending :
      (fuel b : ℕ) (bs : List ℕ) (c : Connection Buf) (net : Net)
      → Pending fuel c (b ∷ bs)
      → (c' : Connection Buf) × (connection_get_byte lwip ethernet fuel (c, net)
          ≡ (success, some b, c', net))
        × Pending fuel c' bs
  connection_get_byte-Pending zero b bs c net p = absurd (omega (arith, p.enough))
  connection_get_byte-Pending (suc fuel) b bs c net p =
      let n = length p.rest in
      let k = p.enough in
      let (c', f, r) : Found (suc fuel) c net b bs n = elim p.place [
        | inl (s, e) ↦
            let c3 = record c { state = connection_data_received } in
            ensure_filled c.start n fuel b bs p.rest c net refl s p.holds e (omega arith) λ e2.
              ensure_data n fuel b bs p.rest c3 net refl p.holds e2 (omega arith) (omega arith)
        | inr (s, e) ↦
            ensure_data n (suc fuel) b bs p.rest c net s p.holds e (omega arith) (omega arith)
      ] in
      get-Ready n (suc fuel) b bs c c' net net f r (omega arith)

  -- The connection as a source of the parser: no byte comes after an answer -1, nor while it still
  -- waits.
  abbrev pub source : ℕ → Connection Buf × Net → Option ℕ × (Connection Buf × Net)
  source fuel w =
      let (answer, byte, c, net) = connection_get_byte lwip ethernet fuel w in (byte, (c, net))

  -- The bytes of a buffer are fed to the parser in their order, wherever the network cut them.
  pub source-Feeds :
      (fuel : ℕ) (bs more : List ℕ) (c : Connection Buf) (net : Net)
      → Pending fuel c (bs ++ more)
      → (c' : Connection Buf) × Feeds (source fuel) (c, net) bs (c', net) × Pending fuel c' more
  source-Feeds fuel [] more c net p = (c, refl, p)
  source-Feeds fuel (b ∷ bs) more c net p =
      let (c1, e, p1) = connection_get_byte-Pending fuel b (bs ++ more) c net p in
      let (c', f, p') = source-Feeds fuel bs more c1 net p1 in (c', rw e (refl, f), p')
