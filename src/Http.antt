-- ===== src/Http.antt =====
-- crates/http-ingest/src: the limits and the errors of the HTTP client. The child modules are the
-- parser of a response's head, the writer of requests, the reads of a connection, and the client.
pub mod Ascii
pub mod Response
pub mod Request
pub mod Connection
pub mod Client
use radar_workstation.Common.{ℕ, String}

-- The limits that the parser reads, of `Limits` in config.rs.
pub record Limits : Type 0 where
  pub max_head_bytes : ℕ
  pub max_header_count : ℕ
  pub max_body_bytes : ℕ

-- Where a timeout struck, of `Phase` in error.rs.
pub data Phase : Type 0 where
  connecting tls_handshake reading_headers reading_body : Phase

-- `Error` in error.rs. An `io::Error` stands for its text; of an oversized body, the length and the
-- limit.
pub data HttpError : Type 0 where
  host_not_allowed : String → HttpError
  connect_failed : String → HttpError
  tls_failed : String → HttpError
  protocol : String → HttpError
  http_status : ℕ → HttpError
  timed_out_during : Phase → HttpError
  closed_by_peer : HttpError
  body_too_large : ℕ → ℕ → HttpError
  invalid_input : String → HttpError
