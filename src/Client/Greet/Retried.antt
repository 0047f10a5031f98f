-- ===== src/Client/Greet/Retried.antt =====
-- The greeting of main/main.c, sent and sent again.
use snapclient.Base.{
  ℕ, ◌≡◌, refl, ap, ◌∙◌, inl, inr, arith, List, [], ◌∷◌, none, some, Bool, true, false, length,
  take, replicate,
}
use mathlib.Core.List.{append-nil}
use snapclient.Message.Wire.{base_message_bytes, base_message_serialize_lem}
use snapclient.Message.Hello.{HelloMessage, Writer, serialized, hello_message_serialize}
use snapclient.Client.Greet.{
  Greeted, Link, no_text, deleted_object, after_body, after_head, again, greet, greet_kept,
  head_bytes, hello_head, send_greeting, sent, with_text,
}

head_bytes_lem : (now size : ℕ) → head_bytes now size ≡ base_message_bytes (hello_head now size)
unfolding head_bytes
head_bytes_lem now size =
    elim (base_message_serialize_lem (hello_head now size) (replicate 26 0) 26 (omega arith)
      (omega arith)) [
        | inl (le, e) ↦
            ap (λ (r : ℕ × List ℕ). r.1) e ∙ append-nil (base_message_bytes (hello_head now size))
        | inr (lt, e) ↦ absurd (omega (arith, lt))
      ]

take-whole : (xs : List ℕ) → take (length xs) xs ≡ xs
take-whole [] = refl
take-whole (x ∷ xs) = ap (◌∷◌ x) (take-whole xs)

module _ {N J H : Type 0} (writer : Writer J H) (write : List ℕ → N → Bool × N) where
  send_greeting-fails :
      (now : ℕ) (text : List ℕ) (size : ℕ) (n n1 n2 : N) (heap : H) (body_sent : Bool)
      → write (head_bytes now size) n ≡ (false, n1)
      → write (take size text) n1 ≡ (body_sent, n2)
      → send_greeting writer write now text size n heap
        ≡ again
            (head_bytes now size)
            (take size text)
            (record { kept = some text; net = n2; heap = heap })
  unfolding send_greeting
  send_greeting-fails now text size n n1 n2 heap body_sent e f =
      let head = head_bytes now size in
      let body = take size text in
      ap (after_head writer write head body text heap) e
      ∙ ap (after_body writer write head body text heap false) f

  -- The two packets of a greeting.
  abbrev pub packets : Greeted N H → List ℕ × List ℕ
  packets (sent head body l) = (head, body)
  packets (again head body l) = (head, body)
  packets no_text = ([], [])
  packets deleted_object = ([], [])

  after_body-packets :
      (head body text : List ℕ) (heap : H) (b : Bool) (r : Bool × N)
      → packets (after_body writer write head body text heap b r) ≡ (head, body)
  after_body-packets head body text heap true (true, n) = refl
  after_body-packets head body text heap true (false, n) = refl
  after_body-packets head body text heap false (b, n) = refl

  send_greeting-packets :
      (now : ℕ) (text : List ℕ) (size : ℕ) (n : N) (heap : H)
      → packets (send_greeting writer write now text size n heap)
        ≡ (base_message_bytes (hello_head now size), take size text)
  unfolding send_greeting
  send_greeting-packets now text size n heap =
      let head = head_bytes now size in
      let (head_sent, n1) = write head n in
      after_body-packets head (take size text) text heap head_sent (write (take size text) n1)
      ∙ ap (λ h. (h, take size text)) (head_bytes_lem now size)

  -- The first greeting is the header with the size of the message, and the message. If its header cannot be
  -- written, the greeting of the next connection is a header with the size 0 and no message.
  pub greet-retried :
      (now later : ℕ) (msg : HelloMessage) (text : List ℕ) (l : Link N H) (n1 n2 : N) (heap : H)
      (body_sent : Bool)
      → l.kept ≡ none
      → hello_message_serialize writer msg l.heap ≡ (serialized text (length text), heap)
      → write (head_bytes now (length text)) l.net ≡ (false, n1)
      → write text n1 ≡ (body_sent, n2)
      → let kept : Link N H = record { kept = some text; net = n2; heap = heap } in
        (greet writer write now msg l
          ≡ again (base_message_bytes (hello_head now (length text))) text kept)
        × (packets (greet writer write later msg kept)
            ≡ (base_message_bytes (hello_head later 0), []))
  unfolding greet
  greet-retried now later msg text l n1 n2 heap body_sent e s fails body =
      let kept : Link N H = record { kept = some text; net = n2; heap = heap } in
      let whole = take-whole text in
      (
        ap (λ k. greet_kept writer write now msg k l.net l.heap) e
            ∙ ap (with_text writer write now l.net) s
            ∙ send_greeting-fails now text (length text) l.net n1 n2 heap body_sent fails
                (ap (λ b. write b n1) whole ∙ body)
            ∙ ap (λ h. again h (take (length text) text) kept) (head_bytes_lem now (length text))
            ∙ ap (λ b. again (base_message_bytes (hello_head now (length text))) b kept) whole,
        send_greeting-packets later text 0 n2 heap,
      )
