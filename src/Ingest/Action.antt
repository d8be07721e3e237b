-- ===== src/Ingest/Action.antt =====
-- The calls of the poller, which fail with a PollError.
pub use radar_workstation.Common.Stateful.{
  pure, fail, out_of_fuel, of_result, ◌>>=◌, ◌>>◌, Chained, >>=-Chained,
}
use radar_workstation.Common.{some, Result, ok, err}
use radar_workstation.Common.Stateful.{Stateful}
use radar_workstation.Http.{HttpError}
use radar_workstation.Ingest.{PollError, http}

abbrev pub Action : Type 0 → Type 0 → Type 0
Action S A = Stateful PollError S A

-- A call of the HTTP client, `map_err(PollError::Http)?`.
abbrev pub client_result : {A : Type 0} → Result HttpError A → Result PollError A
client_result (ok a) = ok a
client_result (err e) = err (http e)

abbrev pub request : {W A : Type 0} → (W → W × Result HttpError A) → Action W A
request call w = let r = call w in some (r.0, client_result r.1)
