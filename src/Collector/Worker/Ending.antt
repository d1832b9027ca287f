-- ===== src/Collector/Worker/Ending.antt =====
-- The last health of a worker of zimascoped/src/collector/mod.rs, from its start on.
use zima_scope.Base.{List}
use zima_scope.Collector.Health.{GapKey, HealthTracker}
use zima_scope.Collector.Worker.Shutdown.{AreDistinct}
use zima_scope.Model.Health.{ObservationGap}

abbrev Gaps : Type 0
Gaps = List (GapKey × ObservationGap)

-- The open gaps of the tracker have different keys.
abbrev pub HasDistinct : HealthTracker → Type 0
HasDistinct h = AreDistinct h.open_gaps
