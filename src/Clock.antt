-- ===== src/Clock.antt =====
-- internal/clock/fake.go: the clock of the tests. A channel that `After` returns has a number, in the
-- order of the calls; each has room for one time. The mutex makes each method one step.
pub mod Delivery
use entropy_tdc_gateway.Common.{ℕ, zero, suc, ◌+◌, List, [], ◌∷◌, ◌++◌}
use entropy_tdc_gateway.Common.Int.{ℤ, pos}

pub record FakeClock : Type 0 where
  pub now : ℤ
  pub waiters : List ℕ
  pub pending : ℕ
  -- how many channels were made, and what was sent on them
  pub channels : ℕ
  pub delivered : List (ℕ × ℤ)

unfoldable pub new_fake_clock : FakeClock
new_fake_clock = record { now = pos 0; waiters = []; pending = 0; channels = 0; delivered = [] }

abbrev pub with_pending : FakeClock → ℕ → FakeClock
with_pending f zero = record f { waiters = f.waiters ++ f.channels ∷ []; channels = f.channels + 1 }
with_pending f (suc pending) = record f {
  pending = pending;
  channels = f.channels + 1;
  delivered = f.delivered ++ (f.channels, f.now) ∷ [];
}

-- The channel has number `f.channels`; the duration is not used.
unfoldable pub after : ℤ → FakeClock → FakeClock
after duration f = with_pending f f.pending

abbrev pub at_time : ℤ → List ℕ → List (ℕ × ℤ)
at_time now [] = []
at_time now (id ∷ ids) = (id, now) ∷ at_time now ids

abbrev pub fire_to : FakeClock → List ℕ → FakeClock
fire_to f [] = record f { pending = f.pending + 1 }
fire_to f (id ∷ ids) = record f {
  waiters = [];
  delivered = f.delivered ++ at_time f.now (id ∷ ids);
}

unfoldable pub fire : FakeClock → FakeClock
fire f = fire_to f f.waiters

-- `add` is the addition of package time.
unfoldable pub advance : (ℤ → ℤ → ℤ) → ℤ → FakeClock → FakeClock
advance add d f = record f { now = add f.now d }
