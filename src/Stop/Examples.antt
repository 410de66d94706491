-- ===== src/Stop/Examples.antt =====
-- Process 0 runs on core 0, and 1 waits; core 1 asks core 0 to stop a process.
use a9n.Base.{[]}
use a9n.Base.Result.{ok}
use a9n.Fixture.{plain_hal}
use a9n.Hal.{Hal}
use a9n.Scheduler.Queues.{Ready}

-- The code runs on core 1.
abbrev second : Hal
second = record plain_hal { current_cpu = ok 1 }

abbrev nobody : Ready
nobody = λ _. []
