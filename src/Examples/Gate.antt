-- ===== src/Examples/Gate.antt =====
-- The properties of the budget gate, applied to the example project and script.
use spark_stage.Base.{ℕ}
use spark_stage.Store.Disk.{Disk}

abbrev plenty : ℕ
plenty = 1000000000000
