-- ===== src/Examples/Messages.antt =====
-- The messages of components/lightsnapcast/snapcast.c on concrete inputs.
use snapclient.Base.{ℕ, List, ◌≡◌, replicate, arith}
use snapclient.Message.{
  Tv, BaseMessage, TimeMessage, base_message_serialize, base_message_deserialize,
}
use snapclient.Message.Wire.{IsBaseMessage}
use snapclient.Message.Deserialize.{base_message_deserialize-serialize}

abbrev pub two_five : Tv
two_five = record { sec = 2; usec = 500 }

abbrev pub time_request : BaseMessage
time_request = record {
  type = 4;
  id = 7;
  refers_to = 0;
  sent = two_five;
  received = two_five;
  size = 8;
}

pub time_request-IsBaseMessage : IsBaseMessage time_request
time_request-IsBaseMessage = record {
  type = omega arith;
  id = omega arith;
  refers_to = omega arith;
  sent = (omega arith, omega arith);
  received = (omega arith, omega arith);
  size = omega arith;
}

abbrev pub blank : List ℕ
blank = replicate 26 0

base_message_deserialize-serialize_example :
    let (result, written) = base_message_serialize time_request blank 26 in
    (result ≡ 0) × (base_message_deserialize time_request written 26 ≡ (0, time_request))
base_message_deserialize-serialize_example =
    base_message_deserialize-serialize time_request time_request blank 26 time_request-IsBaseMessage
      (omega arith) (omega arith) (omega arith)

abbrev late : TimeMessage
late = record { latency = two_five }
