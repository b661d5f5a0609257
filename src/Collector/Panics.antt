-- ===== src/Collector/Panics.antt =====
-- How the collector panics: `Add` goes on after `Close`, until a batch meets the closed channel.
use entropy_tdc_gateway.Common.{◌≡◌, true, List, ◌++◌}
use entropy_tdc_gateway.Mqtt.{TdcEvent}
use entropy_tdc_gateway.Collector.{BatchCollector, Reach}

-- While some of the events are added, in order, a state is reached that has panicked.
abbrev pub Panics : BatchCollector → List TdcEvent → List TdcEvent → Type 0
Panics start added more =
    (first : List TdcEvent) × (rest : List TdcEvent) × (more ≡ first ++ rest)
    × (bc : BatchCollector) × Reach start (added ++ first) bc
    × (bc.panicked ≡ true)
