-- ===== src/Http/Client.antt =====
-- crates/http-ingest/src/lib.rs: S3Client with its two calls, and the retry of `send`.
pub mod Retry
use radar_workstation.Common.{
  ℕ, Option, none, some, Result, ok, err, Bytes, Bool, true, false, if◌then◌else◌,
}
use radar_workstation.Http.{Limits, HttpError, closed_by_peer}
use radar_workstation.Http.Connection.{
  Connection, Attempt, success, closed_empty, failed, crashed, round_trip,
}
use radar_workstation.Http.Request.{list_query, object_path}

-- `S3Client`: the connection that is kept, and a state of the network. The host and the limits do not
-- change: the limits are an argument of the calls, and `format_request`, which writes the version of
-- the package into the request, is one too.
pub record S3Client (W : Type 0) : Type 0 where
  pub conn : Option Connection
  pub network : W

-- What a call gives: a result, or the end of the task by a panic.
pub data Sent : Type 0 where
  answered : Result HttpError Bytes → Sent
  aborted : Sent

abbrev pub keep : Connection → Option Connection
keep c = if c.reusable then some c else none

module _ {W : Type 0} (connect : W → W × Result HttpError Connection)
    (format_request : Bytes → Bytes) (fuel : ℕ) (limits : Limits) where
  -- `attempt`, on the connection that the caller has established.
  unfoldable pub attempt : Bytes → Connection → S3Client W → Option (S3Client W × Attempt)
  attempt request c s = elim (round_trip fuel limits request c) [
    | none ↦ none
    | some r ↦ some (record s { conn = keep r.0 }, r.1)
  ]

  unfoldable pub answer : Attempt → Sent
  answer (success bytes) = answered (ok bytes)
  answer (failed e) = answered (err e)
  answer closed_empty = answered (err closed_by_peer)
  answer crashed = aborted

  -- An attempt that is not made again.
  unfoldable pub attempt_once : Bytes → Connection → S3Client W → Option (S3Client W × Sent)
  attempt_once request c s = elim (attempt request c s) [
    | none ↦ none
    | some r ↦ some (r.0, answer r.1)
  ]

  -- `connect`, and one attempt on the fresh connection.
  unfoldable pub attempt_fresh : Bytes → S3Client W → Option (S3Client W × Sent)
  attempt_fresh request s =
      let dialled = connect s.network in
      elim dialled.1 [
        | ok c ↦ attempt_once request c (record s { conn = some c; network = dialled.0 })
        | err e ↦ some (record s { network = dialled.0 }, answered (err e))
      ]

  -- The match on what the attempt on a reused connection came to.
  unfoldable pub after_reused : Bytes → S3Client W × Attempt → Option (S3Client W × Sent)
  after_reused request (s, closed_empty) = attempt_fresh request s
  after_reused request (s, a) = some (s, answer a)

  unfoldable pub send_on : Bytes → Option Connection → S3Client W → Option (S3Client W × Sent)
  send_on request none s = attempt_fresh request s
  send_on request (some c) s = elim (attempt request c s) [
    | none ↦ none
    | some r ↦ after_reused request r
  ]

  abbrev pub send : Bytes → S3Client W → Option (S3Client W × Sent)
  send path s = send_on (format_request path) s.conn s

  -- A bad path is refused before anything is sent.
  abbrev pub send_path : Result HttpError Bytes → S3Client W → Option (S3Client W × Sent)
  send_path (ok path) s = send path s
  send_path (err e) s = some (s, answered (err e))

  unfoldable pub list_prefix :
      Bytes → Option Bytes → Option Bytes → Option Bytes → S3Client W → Option (S3Client W × Sent)
  list_prefix prefix start_after token delimiter =
      send_path (list_query prefix start_after token delimiter)

  unfoldable pub get_object : Bytes → S3Client W → Option (S3Client W × Sent)
  get_object key = send_path (object_path key)
