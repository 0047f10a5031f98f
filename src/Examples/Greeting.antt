-- ===== src/Examples/Greeting.antt =====
-- The greeting of components/lightsnapcast/snapcast.c on a concrete allocator.
use snapclient.Base.{
  ℕ, zero, suc, ◌+◌, ◌-◌, ◌≡◌, List, [], ◌∷◌, ◌++◌, refl, Option, some, none, true,
}
use snapclient.Base.Bytes.{le_bytes}
use snapclient.Message.Hello.{
  HelloMessage, Writer, add_members, hello_message_to_json, hello_message_serialize,
}
use snapclient.Base.{Bool, false}
use snapclient.Message.Wire.{base_message_bytes}
use snapclient.Client.Greet.{Link, again, greet, hello_head}
use snapclient.Client.Greet.Retried.{greet-retried, packets}

-- A heap that still has memory for some values; an object is the number of its members.
abbrev if_left : ℕ → Option ℕ × ℕ
if_left zero = (none, 0)
if_left (suc n) = (some 0, n)

abbrev small : Writer ℕ ℕ
small = record {
  create_object = λ h. if_left h;
  create = λ v h. if_left h;
  add_item = λ o k j. o + 1;
  print = λ j h. (some (123 ∷ j ∷ 125 ∷ []), h);
  delete = λ j h. h + 1 + j;
  malloc = λ n h. (true, h - 1);
  free = λ s h. h + 1;
}

abbrev client : HelloMessage
client = record {
  mac = 1 ∷ [];
  hostname = 2 ∷ [];
  version = 3 ∷ [];
  client_name = 4 ∷ [];
  os = 5 ∷ [];
  arch = 6 ∷ [];
  instance_number = 1;
  id = 7 ∷ [];
  protocol_version = 2;
}

abbrev object : List ℕ
object = 123 ∷ 9 ∷ 125 ∷ []

-- A connection on which nothing can be written; it counts the attempts.
abbrev broken : List ℕ → ℕ → Bool × ℕ
broken bytes n = (false, n + 1)

abbrev new_link : Link ℕ ℕ
new_link = record { kept = none; net = 0; heap = 12 }

abbrev greeting : List ℕ
greeting = le_bytes 4 3 ++ object

abbrev kept_link : Link ℕ ℕ
kept_link = record { kept = some greeting; net = 2; heap = 12 }

greet-retried_example :
    (greet small broken 1000 client new_link
      ≡ again (base_message_bytes (hello_head 1000 7)) greeting kept_link)
    × (packets small broken (greet small broken 2000 client kept_link)
        ≡ (base_message_bytes (hello_head 2000 0), []))
unfolding hello_message_to_json add_members hello_message_serialize
greet-retried_example =
    greet-retried small broken 1000 2000 client greeting new_link 1 2 12 false refl refl refl refl
