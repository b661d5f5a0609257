-- ===== src/Tests/Traffic.antt =====
-- The theorems on the message handler, the collector and the HTTP interface at concrete data.
use entropy_tdc_gateway.Common.{
  ◌==◌, ℕ, Bool, true, false, not, ◌&&◌, ◌||◌, none, some, List, [], ◌∷◌, ◌++◌, ◌≡◌, refl, arith,
  if◌then◌else◌,
}
use entropy_tdc_gateway.Common.Int.{pos}
use entropy_tdc_gateway.Common.Text.{
  trim_left, trim_right, trim_space, is_space, to_lower, same_text,
}
use entropy_tdc_gateway.Common.Numerals.{print_decimal, all_spaces}
use entropy_tdc_gateway.Tests.Data.{event_at}
use entropy_tdc_gateway.Mqtt.{Effect, TdcEvent, slash, is_meta_topic, now_micros_safe, on_message}
use entropy_tdc_gateway.Mqtt.Messages.{
  added, dropped, is_reading, reading, on_message_lem, on_message-print_decimal,
}
use entropy_tdc_gateway.Collector.{
  BatchCollector, SendRequest, Reach, here, next, adds, delivers, new_batch_collector, send, flush,
  add, deliver, close_flush, close_queue, cancelled, next_sequence, queue_capacity, max_int,
}
use entropy_tdc_gateway.Collector.Conservation.{held, Reach-held}
use entropy_tdc_gateway.Collector.Bounds.{IsBounded, Reach-IsBounded}
use entropy_tdc_gateway.Collector.Panics.{Panics}
use entropy_tdc_gateway.Collector.Sequences.{IsSequenced, Reach-IsSequenced}
use entropy_tdc_gateway.Entropy.Pool.{WhitenedPool, available_entropy}
use entropy_tdc_gateway.Entropy.HttpServer.{
  HttpServer, Limiter, Net, handle_entropy, handle_ready, enforce_loopback_addr, localhost, bound,
  or_default_address,
}
use entropy_tdc_gateway.Entropy.HttpServer.Requests.{IsPaid, handle_entropy-IsPaid}
use entropy_tdc_gateway.Entropy.HttpServer.Readiness.{says_ready}
use entropy_tdc_gateway.Entropy.HttpServer.Address.{IsLocal, enforce_loopback_addr-IsLocal}

-- "t" as the first segment of a topic, and " 12\n" as a payload.
abbrev topic : List ℕ
topic = 116 ∷ 47 ∷ 51 ∷ []

abbrev payload : List ℕ
payload = 32 ∷ 49 ∷ 50 ∷ 10 ∷ []

on_message_lem_example :
    (added (on_message true (pos 5) topic payload) ≡ (
      if not (is_meta_topic topic) && is_reading payload
      then reading (pos 5) topic payload ∷ []
      else []))
    × (dropped (on_message true (pos 5) topic payload)
        ≡ (if is_meta_topic topic || is_reading payload then 0 else 1))
on_message_lem_example = on_message_lem (pos 5) topic payload

space_only : all_spaces (32 ∷ []) ≡ true
unfolding is_space
space_only = refl

newline_only : all_spaces (10 ∷ []) ≡ true
unfolding is_space
newline_only = refl

-- A numeral with spaces, on the topic of channel 37.
abbrev numeral_topic : List ℕ
numeral_topic = (116 ∷ []) ++ slash ∷ print_decimal 37

abbrev numeral_effects : List Effect
numeral_effects =
    on_message true (pos 5) numeral_topic ((32 ∷ []) ++ (print_decimal 1234 ++ (10 ∷ [])))

on_message-print_decimal_example :
    (added numeral_effects ≡ (
      if 1234 == 0
      then []
      else record {
        rpi_timestamp_us = now_micros_safe (pos 5);
        channel = 37;
        tdc_timestamp_ps = 1234;
        delta_ps = none;
        flags = none;
      }
        ∷ []))
    × (dropped numeral_effects ≡ (if 1234 == 0 then 1 else 0))
on_message-print_decimal_example =
    on_message-print_decimal (pos 5) (116 ∷ []) (32 ∷ []) (10 ∷ []) 37 1234 (omega arith)
      (omega arith) space_only newline_only

-- Two events fill a batch of two, which is sent; a third one waits.
abbrev pub start : BatchCollector
start = new_batch_collector 2

abbrev one : BatchCollector
one = add (event_at 1) start

abbrev two : BatchCollector
two = add (event_at 2) one

abbrev pub job : SendRequest
job = record { batch = event_at 1 ∷ event_at 2 ∷ []; seq = 1 }

abbrev pub three : BatchCollector
three = add (event_at 3) (deliver job [] two)

abbrev pub three_added : List TdcEvent
three_added = event_at 1 ∷ event_at 2 ∷ event_at 3 ∷ []

pub Reach-three : Reach start three_added three
unfolding new_batch_collector add flush send next_sequence queue_capacity max_int deliver
Reach-three =
    next
      (next
        (next (next here (adds (event_at 1) (record { unlocked = refl; alive = refl })))
          (adds (event_at 2) (record { unlocked = refl; alive = refl })))
        (delivers job [] refl refl))
      (adds (event_at 3) (record { unlocked = refl; alive = refl }))

pub three_alive : three.panicked ≡ false
unfolding new_batch_collector add flush send next_sequence queue_capacity max_int deliver
three_alive = refl

Reach-held_example : held three ≡ three_added
Reach-held_example = Reach-held 2 three_added three Reach-three three_alive

Reach-IsSequenced_example : IsSequenced 2 three
Reach-IsSequenced_example = Reach-IsSequenced 2 three_added three Reach-three three_alive

Reach-IsBounded_example : IsBounded 2 three
Reach-IsBounded_example = Reach-IsBounded 2 three_added three Reach-three

-- `Close` before any event, and then two events.
abbrev done : BatchCollector
done = record start { phase = cancelled }

abbrev emptied : BatchCollector
emptied = close_flush done

abbrev shut : BatchCollector
shut = close_queue emptied

-- A limiter that lets every second request pass.
abbrev pub every_second : Limiter Bool
every_second = record { allow = λ b. (b, some (pos 2), not b) }

abbrev pub small_pool : WhitenedPool
small_pool = record {
  raw_events = [];
  whitened = 5 ∷ 5 ∷ 7 ∷ 9 ∷ [];
  min_pool_size = 2;
  max_pool_size = 40;
  max_raw_events = 3;
  rct = record { cutoff = 3; last_sample = 0; repeat_count = 0; initialized = false };
  apt = record { cutoff = 3; window_size = 4; first_sample = 0; match_count = 0; sample_count = 0 };
}

abbrev pub server : HttpServer Bool
server = record {
  pool = some small_pool;
  rate_limiter = some true;
  ready_threshold = pos 2;
  retry_after_seconds = pos 1;
}

handle_entropy-IsPaid_example :
    IsPaid small_pool (51 ∷ []) (handle_entropy every_second server (51 ∷ []))
handle_entropy-IsPaid_example = handle_entropy-IsPaid every_second server small_pool (51 ∷ []) refl

server_ready : says_ready (handle_ready server) ≡ true
unfolding handle_ready available_entropy
server_ready = refl

-- Every text is the host, with the empty port; none is an IP.
abbrev host_only : Net
host_only = record {
  Ip = Unit;
  split_host_port = λ address. some (address, []);
  join_host_port = λ host port. host ++ port;
  parse_ip = λ host. none;
  is_loopback = λ ip. true;
  ip_string = λ ip. [];
}

bound_localhost : enforce_loopback_addr host_only localhost false ≡ bound localhost
unfolding enforce_loopback_addr or_default_address trim_left trim_right is_space to_lower same_text
bound_localhost = refl

enforce_loopback_addr-IsLocal_example :
    (host : List ℕ) × (port : List ℕ) × (host_only.split_host_port
        (or_default_address (trim_space localhost))
      ≡ some (host, port))
    × IsLocal host_only host port localhost
enforce_loopback_addr-IsLocal_example =
    enforce_loopback_addr-IsLocal host_only localhost localhost bound_localhost
