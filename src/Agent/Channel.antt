-- ===== src/Agent/Channel.antt =====
-- src/backends/agent-transport.ts: `AgentFrameChannel`.
pub mod Chunks
use electrosphere.Base.{
  ℕ, zero, suc, ◌+◌, Bool, true, false, not, List, [], ◌∷◌, ◌++◌, map, length, take, drop, ltb,
  if◌then◌else◌,
}
use electrosphere.Base.Exec.{Result, ok, err}
use electrosphere.Base.Words.{read_u32_be}
use electrosphere.Agent.Frames.{encode_agent_frame, decode_agent_frame}
use electrosphere.Domain.Errors.{ErrorCode, Thrown, plain_error, throws}

-- `pending` are the requests that wait, oldest first; `settled` is how each request before them
-- was settled, in that order; `written` are the frames given to `writeFrame`.
pub record Channel (R : Type 0) : Type 0 where
  pub buffer : List ℕ
  pub pending : List ℕ
  pub closed : Bool
  pub settled : List (ℕ × Result R)
  pub written : List (List ℕ)

abbrev closed_transport : Thrown
closed_transport = throws ErrorCode.backend_error "Guest agent transport is closed"

abbrev pub frame_limit : ℕ
frame_limit = 2_097_152

abbrev pub oversized : Thrown
oversized = plain_error "Guest agent frame exceeds limit"

abbrev pub unsolicited : Thrown
unsolicited = plain_error "Guest agent sent an unsolicited response"

module _ {R : Type 0} where
  abbrev reject_all : Thrown → List ℕ → List (ℕ × Result R)
  reject_all e pending = map (λ p. (p, err e)) pending

  unfoldable pub fail : Thrown → Channel R → Channel R
  fail e c =
      if c.closed
      then c
      else record c { closed = true; settled = c.settled ++ reject_all e c.pending; pending = [] }

  -- `close`; `closeChannel` is called besides.
  unfoldable pub close : Channel R → Channel R
  unfolding fail
  close c = fail (plain_error "Guest agent transport closed") c

  pub settle : (List ℕ → Result R) → (frame : List ℕ) → Channel R → List ℕ → Channel R
  unfolding fail
  settle parse frame c [] = fail unsolicited c
  settle parse frame c (p ∷ pending) = record c {
    pending = pending;
    settled = c.settled ++ ((p, decode_agent_frame parse frame) ∷ []);
  }

  -- The first frame, of `size` bytes behind its header, is taken off the buffer and settles the
  -- oldest request, if there is one.
  pub take_frame : (List ℕ → Result R) → ℕ → Channel R → Channel R
  unfolding settle
  take_frame parse size c =
      settle parse (take (size + 4) c.buffer) (record c { buffer = drop (size + 4) c.buffer })
        c.pending

  -- The loop of `push`: each round but the last takes at least four bytes off the buffer.
  pub receive : (List ℕ → Result R) → (fuel : ℕ) → Channel R → Channel R
  unfolding fail take_frame
  receive parse zero c = c
  receive parse (suc fuel) c =
      let size = read_u32_be c.buffer in
      let rest = receive parse fuel (take_frame parse size c) in
      if ltb (length c.buffer) 4
      then c
      else if ltb frame_limit size
      then fail oversized c
      else if ltb (length c.buffer) (size + 4)
      then c
      else if (take_frame parse size c).closed
      then take_frame parse size c
      else rest

  unfoldable pub push : (List ℕ → Result R) → List ℕ → Channel R → Channel R
  unfolding receive
  push parse chunk c =
      let buffer = c.buffer ++ chunk in
      if c.closed then c else receive parse (suc (length buffer)) (record c { buffer = buffer })

  record_request : ℕ → List ℕ → Result (Unit {0}) → Channel R → Channel R
  record_request id frame (ok _) c = record c {
    pending = c.pending ++ (id ∷ []);
    written = c.written ++ (frame ∷ []);
  }
  record_request id frame (err e) c = record c { settled = c.settled ++ ((id, err e) ∷ []) }

  write_request : ℕ → (List ℕ → Result (Unit {0})) → Result (List ℕ) → Channel R → Channel R
  unfolding record_request
  write_request id write_frame (ok frame) c = record_request id frame (write_frame frame) c
  write_request id write_frame (err e) c = record_request id [] (err e) c

  -- `request` of the message whose JSON text has the bytes `payload`; `id` names the promise that
  -- it returns. A frame that cannot be written rejects it at once.
  unfoldable pub request :
      (write_frame : List ℕ → Result (Unit {0})) (id : ℕ) → List ℕ → Channel R → Channel R
  unfolding write_request
  request write_frame id payload c =
      if c.closed
      then record c { settled = c.settled ++ ((id, err closed_transport) ∷ []) }
      else write_request id write_frame (encode_agent_frame payload) c
