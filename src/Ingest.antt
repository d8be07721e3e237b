-- ===== src/Ingest.antt =====
-- crates/radar-workstation/src/ingest/s3_poll.rs: the errors and the published health of the
-- poller. The child modules are the listing's parser, the page loops, and the poller itself.
pub mod Action
pub mod Listing
pub mod Pages
pub mod Poller
pub mod Rounds
use radar_workstation.Common.{ℕ, String, Option, none, Bytes, Bool}
use radar_workstation.Http.{
  HttpError, http_status, connect_failed, tls_failed, timed_out_during, closed_by_peer,
}

-- `quick_xml::Error`: its text, or the entity that no XML document has built in.
pub data XmlError : Type 0 where
  malformed : String → XmlError
  unrecognized_entity : Bytes → XmlError

pub data PollError : Type 0 where
  http : HttpError → PollError
  xml : XmlError → PollError

pub data IngestErrorKind : Type 0 where
  network : IngestErrorKind
  http_error_status : ℕ → IngestErrorKind
  malformed_listing : IngestErrorKind
  protocol_error : IngestErrorKind

-- `IngestErrorKind::from`
unfoldable pub kind_of_error : PollError → IngestErrorKind
kind_of_error (http (http_status status)) = http_error_status status
kind_of_error (http (connect_failed e)) = network
kind_of_error (http (tls_failed e)) = network
kind_of_error (http (timed_out_during phase)) = network
kind_of_error (http closed_by_peer) = network
kind_of_error (http _) = protocol_error
kind_of_error (xml e) = malformed_listing

pub data IngestState : Type 0 where
  polling : IngestState
  retrying : ℕ → IngestState
  stalled : IngestState
  re_anchoring : IngestState

-- An `Instant` is a number.
pub record IngestStatus : Type 0 where
  pub state : IngestState
  pub last_success : Option ℕ
  pub last_error : Option IngestErrorKind
  pub current_volume : Option ℕ

-- `IngestStatus::default()`
abbrev pub default_status : IngestStatus
default_status = record {
  state = polling;
  last_success = none;
  last_error = none;
  current_volume = none;
}

abbrev pub reanchor_empty_polls : ℕ
reanchor_empty_polls = 12

abbrev pub stuck_mid_volume_empty_polls : ℕ
stuck_mid_volume_empty_polls = 60

abbrev pub stalled_after_consecutive_errors : ℕ
stalled_after_consecutive_errors = 5
