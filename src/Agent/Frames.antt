-- ===== src/Agent/Frames.antt =====
-- src/agent-protocol.ts: `encodeAgentFrame` and `decodeAgentFrame`.
use electrosphere.Base.{
  ℕ, ◌+◌, ◌-◌, ◌≡◌, Bool-cases, inl, inr, ltb→lt, not, List, ◌++◌, arith, length, drop, ltb, ◌==◌,
  if◌then◌else◌,
}
use electrosphere.Base.Exec.{Result, ok, err}
use electrosphere.Base.Words.{u32_be, read_u32_be, read_u32_be-u32_be}
use electrosphere.Domain.Errors.{plain_error}

-- `encodeAgentFrame` of the message whose JSON text has the bytes `payload`.
-- `writeUInt32BE` throws on a length that has no four bytes.
unfoldable pub encode_agent_frame : List ℕ → Result (List ℕ)
encode_agent_frame payload =
    if ltb (length payload) 4_294_967_296
    then ok (u32_be (length payload) ++ payload)
    else err (plain_error "The value of \"value\" is out of range")

-- `decodeAgentFrame`. `parse` is `JSON.parse` of bytes.
unfoldable pub decode_agent_frame : {R : Type 0} → (List ℕ → Result R) → List ℕ → Result R
decode_agent_frame parse bytes =
    if ltb (length bytes) 4
    then err (plain_error "Agent frame is truncated")
    else if not (read_u32_be bytes == (length bytes - 4))
    then err (plain_error "Agent frame length mismatch")
    else parse (drop 4 bytes)

-- Where the encoder returns a frame, decoding the frame parses the bytes of the message, and the
-- frame is four bytes longer than they are.
pub decode-encode_agent_frame :
    {R : Type 0} (parse : List ℕ → Result R) (payload frame : List ℕ)
    → encode_agent_frame payload ≡ ok frame
    → (decode_agent_frame parse frame ≡ parse payload) × (length frame ≡ length payload + 4)
unfolding encode_agent_frame decode_agent_frame
decode-encode_agent_frame parse payload frame encoded =
    elim (Bool-cases (ltb (length payload) 4_294_967_296)) [
      | inl small ↦
          let same : frame ≡ u32_be (length payload) ++ payload = ground (arith, encoded, small) in
          rw same (
            rw (read_u32_be-u32_be (length payload) payload (ltb→lt _ _ small)) (ground arith),
            omega arith,
          )
      | inr large ↦ absurd (ground (arith, encoded, large))
    ]
