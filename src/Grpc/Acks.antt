-- ===== src/Grpc/Acks.antt =====
-- What acknowledgements do to the metrics.
use entropy_tdc_gateway.Common.{
  ℕ, ◌+◌, ◌≡◌, refl, Bool, true, false, Option, none, some, List, [], ◌∷◌, ◌++◌, if◌then◌else◌,
  arith, length, is_empty,
}
use entropy_tdc_gateway.Common.Int.{pos}
use entropy_tdc_gateway.Metrics.{
  Metric, Update, cloud_acks_received, cloud_nacks_received, forwarder_missing_seq_total,
  forwarder_backpressure_total, total,
}
use entropy_tdc_gateway.Metrics.Accounts.{total-append}
use entropy_tdc_gateway.Metrics.Links.{
  record_cloud_ack, record_backpressure, record_missing_sequence,
}
use entropy_tdc_gateway.Grpc.{Ack, handle_ack}

-- The counters of acknowledgements, those of accepted and of rejected batches together.
abbrev is_answer : Metric → Bool
is_answer cloud_acks_received = true
is_answer cloud_nacks_received = true
is_answer _ = false

abbrev is_missing : Metric → Bool
is_missing forwarder_missing_seq_total = true
is_missing _ = false

abbrev is_backpressure : Metric → Bool
is_backpressure forwarder_backpressure_total = true
is_backpressure _ = false

-- What the counters of a run of acknowledgements are to show.
abbrev pub answers : List (Option Ack) → ℕ
answers [] = 0
answers (none ∷ acks) = answers acks
answers (some ack ∷ acks) = 1 + answers acks

abbrev pub missing : List (Option Ack) → ℕ
missing [] = 0
missing (none ∷ acks) = missing acks
missing (some ack ∷ acks) = length ack.missing_sequences + missing acks

abbrev pub signals : List (Option Ack) → ℕ
signals [] = 0
signals (none ∷ acks) = signals acks
signals (some ack ∷ acks) = (if ack.backpressure then 1 else 0) + signals acks

-- `handleAck` of each, in order.
abbrev pub handle_acks : List (Option Ack) → List (Update Unit)
handle_acks [] = []
handle_acks (ack ∷ acks) = handle_ack ack ++ handle_acks acks

abbrev pub IsCounted : List (Option Ack) → List (Update Unit) → Type 0
IsCounted acks us =
    (total is_answer us ≡ answers acks)
    × ((total is_missing us ≡ missing acks) × (total is_backpressure us ≡ signals acks))

-- As the code guards the count of the missing numbers.
missing-total :
    (xs : List ℕ)
    → total {F = Unit} is_missing
        (if is_empty xs then [] else record_missing_sequence (pos (length xs)))
      ≡ length xs
unfolding record_missing_sequence
missing-total [] = refl
missing-total (x ∷ xs) = ground arith

missing-others :
    (picks : Metric → Bool) (xs : List ℕ)
    → picks forwarder_missing_seq_total ≡ false
    → total {F = Unit} picks (if is_empty xs then [] else record_missing_sequence (pos (length xs)))
      ≡ 0
unfolding record_missing_sequence
missing-others picks [] f = refl
missing-others picks (x ∷ xs) f = ground (arith, f)

handle_ack-IsCounted : (ack : Option Ack) → IsCounted (ack ∷ []) (handle_ack ack)
unfolding handle_ack record_cloud_ack record_backpressure
handle_ack-IsCounted none = (refl, (refl, refl))
handle_ack-IsCounted (some ack) =
    let m = missing-total ack.missing_sequences in
    let a = missing-others is_answer ack.missing_sequences refl in
    let b = missing-others is_backpressure ack.missing_sequences refl in
    (ground (arith, a), (ground (arith, m), ground (arith, b)))

-- After any acknowledgements, nil ones included, the batches that count as accepted or rejected are
-- as many as the acknowledgements that are not nil, the missing numbers as many as those name, and
-- the signals of back-pressure as many as they carry.
pub handle_ack-counts : (acks : List (Option Ack)) → IsCounted acks (handle_acks acks)
unfolding handle_ack
handle_ack-counts [] = (refl, (refl, refl))
handle_ack-counts (none ∷ acks) = handle_ack-counts acks
handle_ack-counts (some ack ∷ acks) =
    let (a, (m, b)) = handle_ack-IsCounted (some ack) in
    let (a', (m', b')) = handle_ack-counts acks in
    (
      ground (arith, total-append is_answer (handle_ack (some ack)) (handle_acks acks), a, a'),
      (
        ground (arith, total-append is_missing (handle_ack (some ack)) (handle_acks acks), m, m'),
        ground
            (arith, total-append is_backpressure (handle_ack (some ack)) (handle_acks acks), b, b'),
      ),
    )
