-- ===== src/Command/Deadline.antt =====
-- After a signal nothing keeps runServe from returning once the drain's timeout is over.
use webguard_instance.Base.{ℕ, suc}
use webguard_instance.Application.Telemetry.{Telemetry}
use webguard_instance.Command.{
  Server, Stage, Moves, awaits_signal, begins_drain, stops_dispatch, asks_idle, waits, stops_health,
  over, starts, moves,
}

-- How many moves of its own the goroutine that shuts down has left after the signal.
abbrev pub stages_left : Stage → ℕ
stages_left awaits_signal = 6
stages_left begins_drain = 5
stages_left stops_dispatch = 4
stages_left asks_idle = 3
stages_left (waits idle) = 2
stages_left (stops_health idle) = 1
stages_left (over idle) = 0

unfoldable pub moves_made : {s u : Server} → Moves s u → ℕ
moves_made starts = 0
moves_made (moves before running m) = suc (moves_made before)
