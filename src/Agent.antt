-- ===== src/Agent.antt =====
-- The channel to the agent of a guest: the frames of src/agent-protocol.ts, and the writer and
-- the reader of src/backends/agent-transport.ts. Bytes are natural numbers; `JSON.parse` and
-- `JSON.stringify` are parameters.
pub mod Frames
pub mod Writer
pub mod Channel
pub mod Files
