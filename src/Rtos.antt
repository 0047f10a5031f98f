-- ===== src/Rtos.antt =====
-- What the tasks use of FreeRTOS: a queue of one place, written by `xQueueOverwrite`, and a queue of
-- chunks. FreeRTOS is not in the repository, so that both are parameters, with their documented behaviour.
use snapclient.Base.{ℕ, ◌≡◌, List, [], ◌∷◌, ◌++◌, length, Option, none, some, Bool, true, false}

-- `xQueueOverwrite` and `xQueueReceive`; `none` is an empty queue.
pub record Mailbox (A Q : Type 0) : Type 0 where
  pub overwrite : A → Q → Q
  pub receive : Q → Option (A × Q)

-- The queue holds one item: what is put into it replaces what is there, and taking it empties the queue.
pub record IsMailbox {A Q : Type 0} (mailbox : Mailbox A Q) : Type 0 where
  pub holds_one :
      (a : A) (queue : Q)
      → (queue' : Q) × (mailbox.receive (mailbox.overwrite a queue) ≡ some (a, queue'))
        × (mailbox.receive queue' ≡ none)

-- `xQueueCreate`, `xQueueSend` with whether there was a place in time, `xQueueReceive` and
-- `uxQueueMessagesWaiting`.
pub record Queue (A Q : Type 0) : Type 0 where
  pub create : ℕ → Option Q
  pub send : A → Q → Bool × Q
  pub receive : Q → Option A × Q
  pub waiting : Q → ℕ

-- The answer of a send, by what the queue holds then; and that of a receive, which takes the oldest item.
abbrev pub Sent : {A Q : Type 0} → (Q → List A) → A → List A → Bool × Q → Type 0
Sent items a old (true, queue) = items queue ≡ old ++ a ∷ []
Sent items a old (false, queue) = items queue ≡ old

abbrev pub Received : {A Q : Type 0} → (Q → List A) → List A → Option A × Q → Type 0
Received items old (none, queue) = (old ≡ []) × (items queue ≡ [])
Received items old (some a, queue) = old ≡ a ∷ items queue

-- A new queue is empty, and a queue keeps its items in order; a send without a place changes nothing.
pub record IsQueue {A Q : Type 0} (queue : Queue A Q) (items : Q → List A) : Type 0 where
  pub created : (n : ℕ) (q : Q) → queue.create n ≡ some q → items q ≡ []
  pub sent : (a : A) (q : Q) → Sent items a (items q) (queue.send a q)
  pub received : (q : Q) → Received items (items q) (queue.receive q)
  pub counted : (q : Q) → queue.waiting q ≡ length (items q)
