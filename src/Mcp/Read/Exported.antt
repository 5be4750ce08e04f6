-- ===== src/Mcp/Read/Exported.antt =====
-- What `streamWorkspaceFile` of src/mcp/server.ts yields of a file that does not change.
use electrosphere.Base.{ℕ, ◌+◌, ◌≡◌, false, none, ◌∷◌, length, take, drop, leb}
use electrosphere.Base.Bytes.{Bytes}
use electrosphere.Base.Exec.{Result, ok, err, Exec}
use electrosphere.Mcp.Files.{FileBytes, Source, Place, Calls, Backends}
use electrosphere.Mcp.Tools.{max_raw_bytes}
use electrosphere.Mcp.Read.Handler.{append_all}

-- The slice of a file that a read of bytes answers.
abbrev pub slice : (content : Bytes) → (offset limit : ℕ) → FileBytes
slice content offset limit = record {
  data_bytes = take limit (drop offset content);
  size = length content;
  eof = leb (length content) (offset + limit);
}

-- Whatever was called before, the backend reads slices of the content.
abbrev pub Serves : Backends → Place → Bytes → Bytes → Type 0
Serves b place path content =
    (calls : Calls) (offset limit : ℕ)
    → b.read_bytes calls place path offset limit ≡ ok (slice content offset limit)

-- The stream is closed without an error, and what it yielded is the text.
abbrev pub Yields : Bytes → Result Source → Type 0
Yields text (ok source) = (source.failure ≡ none) × (append_all source.chunks ≡ text)
Yields text (err e) = ⊥

abbrev append_chunk : Bytes → Result Source → Result Source
append_chunk chunk (ok source) = ok (record source { chunks = chunk ∷ source.chunks })
append_chunk chunk (err e) = err e

module _ (content : Bytes) (offset : ℕ) (more : leb (length content) offset ≡ false) where
  abbrev chunk : Bytes
  chunk = take max_raw_bytes (drop offset content)
