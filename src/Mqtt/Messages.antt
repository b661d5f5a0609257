-- ===== src/Mqtt/Messages.antt =====
-- Which messages reach the collector, and with which event.
use entropy_tdc_gateway.Common.{
  ℕ, suc, ◌+◌, ◌^◌, ◌<◌, Bool, true, not, ◌&&◌, ◌||◌, none, some, List, [], ◌∷◌, ◌++◌, ◌≡◌, refl,
  inl, inr, if◌then◌else◌, ◌==◌, ltb, arith, is_empty, Bool-cases,
}
use entropy_tdc_gateway.Common.Int.{ℤ}
use entropy_tdc_gateway.Common.Text.{
  trim_space, parse_uint_lem, all_digits, decimal, split_at, last-split_at,
}
use entropy_tdc_gateway.Common.Numerals.{
  print_decimal, parse_uint-print_decimal, trim_space-digits, all_spaces, all_digits-print,
  is_empty-print, lacks-all_digits,
}
use entropy_tdc_gateway.Mqtt.Topics.{is_meta_topic-print_decimal}
use entropy_tdc_gateway.Mqtt.{
  TdcEvent, Effect, collector_add, increment_dropped, slash, is_meta_topic,
  extract_channel_from_topic, now_micros_safe, parse_raw_timestamp, drop_message, accept,
  on_message,
}

-- The events given to the collector, and the number of dropped ones reported to it.
abbrev pub added : List Effect → List TdcEvent
added [] = []
added (collector_add event ∷ es) = event ∷ added es
added (_ ∷ es) = added es

abbrev pub dropped : List Effect → ℕ
dropped [] = 0
dropped (increment_dropped n ∷ es) = n + dropped es
dropped (_ ∷ es) = dropped es

-- A payload is a reading if it is, spaces aside, a numeral from 1 to 2^64 - 1.
abbrev pub is_reading : List ℕ → Bool
is_reading payload =
    let text = trim_space payload in
    not (is_empty text) && all_digits text && ltb (decimal text) (2 ^ 64) && not (decimal text == 0)

abbrev pub reading : ℤ → List ℕ → List ℕ → TdcEvent
reading now topic payload = record {
  rpi_timestamp_us = now_micros_safe now;
  channel = extract_channel_from_topic topic;
  tdc_timestamp_ps = decimal (trim_space payload);
  delta_ps = none;
  flags = none;
}

-- With a collector, a message on a topic of metadata neither adds an event nor counts a drop; of
-- the other messages, one whose payload is a reading adds its event and counts no drop, and any
-- other counts one drop and adds nothing.
pub on_message_lem :
    (now : ℤ) (topic payload : List ℕ)
    → (added (on_message true now topic payload) ≡ (
        if not (is_meta_topic topic) && is_reading payload
        then reading now topic payload ∷ []
        else []))
      × (dropped (on_message true now topic payload)
          ≡ (if is_meta_topic topic || is_reading payload then 0 else 1))
unfolding on_message parse_raw_timestamp drop_message accept
on_message_lem now topic payload = elim (Bool-cases (is_meta_topic topic)) [
  | inl m ↦ rw m (refl, refl)
  | inr m ↦
      rw (m, parse_uint_lem 64 (trim_space payload) omega arith)
        elim (Bool-cases (
          not (is_empty (trim_space payload))
          && all_digits (trim_space payload)
          && ltb (decimal (trim_space payload)) (2 ^ 64))) [
            | inl e ↦ rw e elim (Bool-cases (decimal (trim_space payload) == 0)) [
              | inl z ↦ rw z (refl, refl)
              | inr z ↦ rw z (refl, refl)
            ]
            | inr e ↦ rw e (refl, refl)
          ]
]

-- The channel of a topic whose last segment is the decimal numeral of a 32-bit number is that
-- number, whatever stands before the last slash.
pub extract_channel_from_topic_lem :
    (prefix : List ℕ) (ch : ℕ)
    → ch < 2 ^ 32
    → extract_channel_from_topic (prefix ++ slash ∷ print_decimal ch) ≡ ch
unfolding extract_channel_from_topic
extract_channel_from_topic_lem prefix ch h =
    let seg =
      last-split_at 47 prefix (print_decimal ch)
        (lacks-all_digits (print_decimal ch) (all_digits-print (suc ch) ch)) in
    rw
      (
        extract_channel_from_topic,
        seg (split_at 47 (prefix ++ slash ∷ print_decimal ch)).0,
        parse_uint-print_decimal 32 ch h,
      )
      refl

-- A numeral with spaces around it, on the topic of a 32-bit channel, parses to its event.
parse_raw_timestamp-print_decimal :
    (now : ℤ) (prefix before after : List ℕ) (ch timestamp : ℕ)
    → ch < 2 ^ 32
    → timestamp < 2 ^ 64
    → all_spaces before ≡ true
    → all_spaces after ≡ true
    → parse_raw_timestamp now
        (prefix ++ slash ∷ print_decimal ch)
        (before ++ (print_decimal timestamp ++ after))
      ≡ some (record {
        rpi_timestamp_us = now_micros_safe now;
        channel = ch;
        tdc_timestamp_ps = timestamp;
        delta_ps = none;
        flags = none;
      })
unfolding parse_raw_timestamp
parse_raw_timestamp-print_decimal now prefix before after ch timestamp c t b a =
    rw
      (
        parse_raw_timestamp,
        trim_space-digits before (print_decimal timestamp) after b
            (is_empty-print timestamp timestamp) (all_digits-print (suc timestamp) timestamp) a,
        parse_uint-print_decimal 64 timestamp t,
        extract_channel_from_topic_lem prefix ch c,
      )
      refl

-- What the publisher writes is what is collected: for a message on the topic of a 32-bit channel ch,
-- whose payload is the decimal numeral of a 64-bit timestamp with spaces around it, the handler with
-- a collector adds the one event with that channel, that timestamp, and the gateway's time, and
-- counts no drop, unless the timestamp is 0: then it adds no event and counts one drop.
pub on_message-print_decimal :
    (now : ℤ) (prefix before after : List ℕ) (ch timestamp : ℕ)
    → ch < 2 ^ 32
    → timestamp < 2 ^ 64
    → all_spaces before ≡ true
    → all_spaces after ≡ true
    → let topic = prefix ++ slash ∷ print_decimal ch in
      let effects = on_message true now topic (before ++ (print_decimal timestamp ++ after)) in
      (added effects ≡ (
        if timestamp == 0
        then []
        else record {
          rpi_timestamp_us = now_micros_safe now;
          channel = ch;
          tdc_timestamp_ps = timestamp;
          delta_ps = none;
          flags = none;
        }
          ∷ []))
      × (dropped effects ≡ (if timestamp == 0 then 1 else 0))
unfolding on_message drop_message accept
on_message-print_decimal now prefix before after ch timestamp c t b a =
    rw
      (
        is_meta_topic-print_decimal prefix ch,
        parse_raw_timestamp-print_decimal now prefix before after ch timestamp c t b a,
      )
      elim (Bool-cases (timestamp == 0)) [ inl z ↦ rw z (refl, refl) | inr z ↦ rw z (refl, refl) ]
