-- ===== src/Tests.antt =====
-- Runs of the model on concrete inputs: the decoder, the chunks, the assembler, HTTP, the poller, the
-- state and the configuration.
pub mod Samples
pub mod Decoding
pub mod Chunks
pub mod Volumes
pub mod Responses
pub mod Polls
pub mod Displays
pub mod Connections
pub mod Configs
