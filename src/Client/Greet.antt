-- ===== src/Client/Greet.antt =====
-- The greeting of `http_get_task` in main/main.c, on a new connection. The sockets are a parameter `N`; `write` is
-- `netconn_write` with whether it succeeds.
pub mod Retried
use snapclient.Base.{
  ℕ, ◌-◌, ◌*◌, ◌/◌, ◌&&◌, List, [], ◌∷◌, Option, none, some, Bool, true, false, take, replicate,
  if◌then◌else◌,
}
use snapclient.Message.{BaseMessage, base_message_serialize}
use snapclient.Message.Hello.{
  HelloMessage, Writer, Serialized, failed, use_after_free, serialized, hello_message_serialize,
}

-- `hello_message_serialized`, which is kept where the greeting was not sent, the sockets and the heap.
pub record Link (N H : Type 0) : Type 0 where
  pub kept : Option (List ℕ)
  pub net : N
  pub heap : H

-- The two packets, the header and the greeting, with whether both were written; otherwise a new connection is made.
-- `no_text` is `esp_restart`, and `deleted_object` the use of an object that was deleted.
pub data Greeted (N H : Type 0) : Type 0 where
  sent : List ℕ → List ℕ → Link N H → Greeted N H
  again : List ℕ → List ℕ → Link N H → Greeted N H
  no_text deleted_object : Greeted N H

-- The counter of the messages begins at 0 on each connection.
abbrev pub hello_head : ℕ → ℕ → BaseMessage
hello_head now size = record {
  type = 5;
  id = 0;
  refers_to = 0;
  sent = record { sec = now / 1000000; usec = now - now / 1000000 * 1000000 };
  received = record { sec = 0; usec = 0 };
  size = size;
}

unfoldable pub head_bytes : ℕ → ℕ → List ℕ
head_bytes now size = (base_message_serialize (hello_head now size) (replicate 26 0) 26).1

module _ {N J H : Type 0} (writer : Writer J H) (write : List ℕ → N → Bool × N) where
  abbrev pub after_body : List ℕ → List ℕ → List ℕ → H → Bool → Bool × N → Greeted N H
  after_body head body text heap head_sent (body_sent, n) =
      if head_sent && body_sent
      then sent head body (record { kept = none; net = n; heap = writer.free text heap })
      else again head body (record { kept = some text; net = n; heap = heap })

  abbrev pub after_head : List ℕ → List ℕ → List ℕ → H → Bool × N → Greeted N H
  after_head head body text heap (head_sent, n) =
      after_body head body text heap head_sent (write body n)

  unfoldable pub send_greeting : ℕ → List ℕ → ℕ → N → H → Greeted N H
  send_greeting now text size n heap =
      let head = head_bytes now size in after_head head (take size text) text heap (write head n)

  abbrev pub with_text : ℕ → N → Serialized × H → Greeted N H
  with_text now n (failed, heap) = no_text
  with_text now n (use_after_free, heap) = deleted_object
  with_text now n (serialized text size, heap) = send_greeting now text size n heap

  -- The size of the header is 0 until the message is serialized, which is not done again.
  abbrev pub greet_kept : ℕ → HelloMessage → Option (List ℕ) → N → H → Greeted N H
  greet_kept now msg none n heap = with_text now n (hello_message_serialize writer msg heap)
  greet_kept now msg (some text) n heap = send_greeting now text 0 n heap

  unfoldable pub greet : ℕ → HelloMessage → Link N H → Greeted N H
  unfolding send_greeting
  greet now msg l = greet_kept now msg l.kept l.net l.heap
