-- ===== src/Mqtt/Subscriptions.antt =====
-- Which topics a client asks for.
use entropy_tdc_gateway.Common.{
  ◌≡◌, ◌⊎◌, refl, ap, inl, inr, Option, none, some, List, [], ◌∷◌, ◌++◌, All,
}
use entropy_tdc_gateway.Mqtt.Client.{Text}
use entropy_tdc_gateway.Mqtt.Session.{
  Answer, acknowledged, timed_out, denied, ConnectError, subscribe_timeout, subscribe_denied,
  subscribe,
}

-- The error of a topic that the broker does not acknowledge.
abbrev pub error_of : Answer → Text → Option ConnectError
error_of acknowledged topic = none
error_of timed_out topic = some (subscribe_timeout topic)
error_of denied topic = some (subscribe_denied topic)

abbrev pub AllAcknowledged : (Text → Answer) → List Text → Type 0
AllAcknowledged broker topics = All (λ topic. broker topic ≡ acknowledged) topics

-- The first topic that is not acknowledged, where the client stops asking.
pub record StopsAt (broker : Text → Answer) (topics : List Text) : Type 0 where
  pub before : List Text
  pub topic : Text
  pub after : List Text
  pub error : ConnectError
  pub split : topics ≡ before ++ topic ∷ after
  pub earlier : AllAcknowledged broker before
  pub why : error_of (broker topic) topic ≡ some error
  pub asked : subscribe broker topics ≡ (before ++ topic ∷ [], some error)

Answer-cases :
    (a : Answer) (topic : Text)
    → (a ≡ acknowledged) ⊎ ((e : ConnectError) × (error_of a topic ≡ some e))
Answer-cases acknowledged topic = inl refl
Answer-cases timed_out topic = inr (subscribe_timeout topic, refl)
Answer-cases denied topic = inr (subscribe_denied topic, refl)

Answer-split : (a : Answer) → (a ≡ acknowledged) ⊎ ((a ≡ timed_out) ⊎ (a ≡ denied))
Answer-split acknowledged = inl refl
Answer-split timed_out = inr (inl refl)
Answer-split denied = inr (inr refl)

subscribe-fails :
    (broker : Text → Answer) (topic : Text) (topics : List Text) (e : ConnectError)
    → error_of (broker topic) topic ≡ some e
    → subscribe broker (topic ∷ topics) ≡ (topic ∷ [], some e)
unfolding subscribe
subscribe-fails broker topic topics e h = elim (Answer-split (broker topic)) [
  | inl a ↦ absurd (cc (rw a at h))
  | inr (inl a) ↦ rw (subscribe, a) (ap (λ o. (topic ∷ [], o)) (rw a at h))
  | inr (inr a) ↦ rw (subscribe, a) (ap (λ o. (topic ∷ [], o)) (rw a at h))
]

-- Either all topics are asked for and acknowledged, or those up to the first that is not, and the
-- error is that of this one.
pub subscribe_lem :
    (broker : Text → Answer) (topics : List Text)
    → ((subscribe broker topics ≡ (topics, none)) × AllAcknowledged broker topics)
      ⊎ StopsAt broker topics
unfolding subscribe
subscribe_lem broker [] = inl (refl, tt)
subscribe_lem broker (topic ∷ topics) = elim (Answer-cases (broker topic) topic) [
  | inl a ↦ elim (subscribe_lem broker topics) [
    | inl (s, all) ↦ inl (rw (subscribe, a, s), (a, all))
    | inr s ↦ inr (record {
      before = topic ∷ s.before;
      topic = s.topic;
      after = s.after;
      error = s.error;
      split = ap (λ l. topic ∷ l) s.split;
      earlier = (a, s.earlier);
      why = s.why;
      asked = rw (subscribe, a, s.asked);
    })
  ]
  | inr (e, h) ↦ inr (record {
    before = [];
    topic = topic;
    after = topics;
    error = e;
    split = refl;
    earlier = tt;
    why = h;
    asked = subscribe-fails broker topic topics e h;
  })
]
