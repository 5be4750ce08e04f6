-- ===== src/Agent/Files/Transfer.antt =====
-- src/backends/agent-files.ts: `write`, a transfer in chunks that is committed or aborted.
use electrosphere.Base.{
  ℕ, zero, suc, ◌≤◌, ◌<◌, Bool, Option, none, some, List, [], ◌∷◌, ◌++◌, length, take, drop, ◌==◌,
  if◌then◌else◌,
}
use electrosphere.Base.Bytes.{Bytes}
use electrosphere.Base.Exec.{Result, ok, err, Exec, pure, throw, lift, attempt, ◌>>=◌, ◌>>◌}
use electrosphere.Domain.Errors.{Thrown}
use electrosphere.Mcp.Files.{Source, FileWritten}
use electrosphere.Agent.Files.Responses.{max_chunk_bytes, require_number, require_digest}
use electrosphere.Agent.Files.Requests.{
  file_write_begin, file_write_chunk, file_write_commit, file_write_abort, Requests, Transport,
  request, request_ok,
}

module _ (transport : Transport) (transfer_id : Bytes) where
  -- The slices of what a read of the source gave; `bytes` is what is left behind the offset.
  unfoldable pub send_slices : (fuel : ℕ) → (bytes : Bytes) → Exec Requests (Unit {0})
  send_slices zero bytes = pure tt
  send_slices (suc fuel) bytes =
      if length bytes == 0
      then pure tt
      else request_ok transport
          (file_write_chunk transfer_id (transport.to_base64 (take max_chunk_bytes bytes)))
          "Guest agent file write chunk failed"
        >> send_slices fuel (drop max_chunk_bytes bytes)

  unfoldable pub send_source :
      (chunks : List Bytes) → (failure : Option Thrown) → Exec Requests (Unit {0})
  send_source [] none = pure tt
  send_source [] (some e) = throw e
  send_source (chunk ∷ chunks) failure = do
    send_slices (length chunk) chunk
    send_source chunks failure

  unfoldable pub commit : Exec Requests FileWritten
  commit = do
    completed ←
        request_ok transport (file_write_commit transfer_id) "Guest agent file write commit failed"
    size ← lift (require_number completed.size)
    digest ← lift (require_digest completed.digest)
    pure (record { size = size; digest = digest })

  -- The body of `try`.
  unfoldable pub transfer :
      (path : Bytes) → Source → (create_parents : Bool) → Exec Requests FileWritten
  transfer path source create_parents = do
    request_ok transport (file_write_begin transfer_id path create_parents)
        "Guest agent file write begin failed"
    send_source source.chunks source.failure
    commit

  abbrev pub abort_unless : Result FileWritten → Exec Requests (Unit {0})
  abort_unless (ok written) = pure tt
  abort_unless (err e) = attempt (request transport (file_write_abort transfer_id)) >> pure tt

  -- `finally`: what was not committed is aborted, and the error of that is dropped.
  unfoldable pub write :
      (path : Bytes) → Source → (create_parents : Bool) → Exec Requests FileWritten
  write path source create_parents = do
    written ← attempt (transfer path source create_parents)
    abort_unless written
    lift written

  -- The requests of a transfer of these pieces so far, both the latest first.
  unfoldable pub sent : (path : Bytes) → (create_parents : Bool) → (pieces : List Bytes) → Requests
  sent path create_parents [] = file_write_begin transfer_id path create_parents ∷ []
  sent path create_parents (piece ∷ pieces) =
      file_write_chunk transfer_id (transport.to_base64 piece) ∷ sent path create_parents pieces

-- The bytes of the pieces, the latest first.
unfoldable pub bytes_sent : (pieces : List Bytes) → Bytes
bytes_sent [] = []
bytes_sent (piece ∷ pieces) = bytes_sent pieces ++ piece

-- The bytes of the source's chunks, in order.
unfoldable pub bytes_in : (chunks : List Bytes) → Bytes
bytes_in [] = []
bytes_in (chunk ∷ chunks) = chunk ++ bytes_in chunks

abbrev pub IsPiece : Bytes → Type 0
IsPiece piece = (0 < length piece) × (length piece ≤ max_chunk_bytes)
