-- ===== src/Ingest/Rounds/Moves/Calls.antt =====
-- A call of poll_once makes one of the moves.
use radar_workstation.Ingest.Poller.{Poller}
