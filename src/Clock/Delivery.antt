-- ===== src/Clock/Delivery.antt =====
-- The fake clock delivers to each channel once, in the order of the calls.
use entropy_tdc_gateway.Common.{
  ℕ, zero, suc, ◌+◌, ◌≡◌, ◌⊎◌, refl, sym, ap, ◌∙◌, inl, inr, List, [], ◌∷◌, ◌++◌, append_assoc,
  append-nil, arith,
}
use entropy_tdc_gateway.Common.Int.{ℤ}
use entropy_tdc_gateway.Clock.{
  FakeClock, new_fake_clock, with_pending, after, at_time, fire_to, fire, advance,
}

pub data Call : Type 0 where
  calls_after calls_advance : ℤ → Call
  calls_fire : Call

abbrev pub ids : List (ℕ × ℤ) → List ℕ
ids [] = []
ids ((id, time) ∷ rest) = id ∷ ids rest

ids-append : (xs ys : List (ℕ × ℤ)) → ids (xs ++ ys) ≡ ids xs ++ ids ys
ids-append [] ys = refl
ids-append ((id, time) ∷ xs) ys = ap (λ l. id ∷ l) (ids-append xs ys)

ids-at_time : (now : ℤ) (xs : List ℕ) → ids (at_time now xs) ≡ xs
ids-at_time now [] = refl
ids-at_time now (x ∷ xs) = ap (λ l. x ∷ l) (ids-at_time now xs)

-- 0, 1, ..., n - 1
abbrev pub up_to : ℕ → List ℕ
up_to zero = []
up_to (suc n) = up_to n ++ n ∷ []

-- The channels that got a time, then those that wait, are all of them in the order of the calls, and
-- none waits while a firing is pending.
pub record IsDelivering (f : FakeClock) : Type 0 where
  pub in_order : ids f.delivered ++ f.waiters ≡ up_to f.channels
  pub none_waits : (f.pending ≡ 0) ⊎ (f.waiters ≡ [])

up_to-next : (n : ℕ) → up_to (n + 1) ≡ up_to n ++ n ∷ []
up_to-next n = let step : n + 1 ≡ suc n = omega arith in ap up_to step

-- The channels of a clock that nobody waits for are those that got a time.
all_delivered :
    (f : FakeClock) → IsDelivering f → f.waiters ≡ [] → ids f.delivered ≡ up_to f.channels
all_delivered f d w =
    sym (append-nil (ids f.delivered)) ∙ ap (λ l. ids f.delivered ++ l) (sym w) ∙ d.in_order

with_pending-IsDelivering :
    (f : FakeClock) (pending : ℕ)
    → f.pending ≡ pending
    → IsDelivering f
    → IsDelivering (with_pending f pending)
with_pending-IsDelivering f zero e d = record {
  in_order =
      sym (append_assoc (ids f.delivered) f.waiters (f.channels ∷ []))
      ∙ ap (λ l. l ++ f.channels ∷ []) d.in_order
      ∙ sym (up_to-next f.channels);
  none_waits = inl e;
}
with_pending-IsDelivering f (suc pending) e d = elim d.none_waits [
  | inl z ↦ absurd (omega (arith, e, z))
  | inr w ↦ record {
    in_order =
        rw
          (
            w,
            ids-append f.delivered ((f.channels, f.now) ∷ []),
            append-nil (ids f.delivered ++ f.channels ∷ []),
          )
          (ap (λ l. l ++ f.channels ∷ []) (all_delivered f d w) ∙ sym (up_to-next f.channels));
    none_waits = inr w;
  }
]

fire_to-IsDelivering :
    (f : FakeClock) (waiters : List ℕ)
    → f.waiters ≡ waiters
    → IsDelivering f
    → IsDelivering (fire_to f waiters)
fire_to-IsDelivering f [] e d = record { in_order = d.in_order; none_waits = inr e }
fire_to-IsDelivering f (id ∷ rest) e d = record {
  in_order =
      append-nil _
      ∙ ids-append f.delivered (at_time f.now (id ∷ rest))
      ∙ ap (λ l. ids f.delivered ++ l) (ids-at_time f.now (id ∷ rest) ∙ sym e)
      ∙ d.in_order;
  none_waits = inr refl;
}

unfoldable pub clock_after : (ℤ → ℤ → ℤ) → List Call → FakeClock
clock_after add [] = new_fake_clock
clock_after add (calls_after d ∷ calls) = after d (clock_after add calls)
clock_after add (calls_advance d ∷ calls) = advance add d (clock_after add calls)
clock_after add (calls_fire ∷ calls) = fire (clock_after add calls)

-- After any calls, the latest first, the channels that got a time followed by those that wait are all
-- channels, each once, in the order in which `After` made them; and none waits while a firing is
-- pending.
pub clock_after-IsDelivering :
    (add : ℤ → ℤ → ℤ) (calls : List Call) → IsDelivering (clock_after add calls)
unfolding clock_after after fire advance new_fake_clock
clock_after-IsDelivering add [] = record { in_order = refl; none_waits = inl refl }
clock_after-IsDelivering add (calls_after d ∷ calls) =
    with_pending-IsDelivering (clock_after add calls) (clock_after add calls).pending refl
      (clock_after-IsDelivering add calls)
clock_after-IsDelivering add (calls_advance d ∷ calls) =
    let i : IsDelivering _ = clock_after-IsDelivering add calls in
    record { in_order = i.in_order; none_waits = i.none_waits }
clock_after-IsDelivering add (calls_fire ∷ calls) =
    fire_to-IsDelivering (clock_after add calls) (clock_after add calls).waiters refl
      (clock_after-IsDelivering add calls)
