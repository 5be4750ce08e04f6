-- ===== src/Agent/Files/Committed.antt =====
-- What a `write` of src/backends/agent-files.ts sends, and how it ends.
use electrosphere.Base.{
  ℕ, String, zero, suc, ◌≤◌, ◌<◌, ◌≡◌, refl, sym, subst, ap, ◌∙◌, Bool, false, Option, none, some,
  List, [], ◌∷◌, ◌++◌, arith, All, append_assoc, append-nil, length, length-drop, length-take,
  take-append-drop, take, drop, ◌==◌,
}
use electrosphere.Base.Bytes.{Bytes}
use electrosphere.Base.Exec.{Result, ok, err, lift, ◌>>◌}
use electrosphere.Base.Exec.Triple.{
  After, After-both, Triple-bind, Triple-weaken, Triple-pure, Triple-throw,
}
use electrosphere.Base.Exec.Leads.{Anything, Leads, Leads-lift, Leads-exists}
use electrosphere.Domain.Errors.{Thrown}
use electrosphere.Mcp.Files.{Source, FileWritten}
use electrosphere.Agent.Files.Responses.{
  max_chunk_bytes, require_ok, require_number, require_digest,
}
use electrosphere.Agent.Files.Requests.{
  AgentRequest, file_write_begin, file_write_chunk, file_write_commit, file_write_abort, Requests,
  Transport, request, request_ok,
}
use electrosphere.Agent.Files.Transfer.{
  send_slices, send_source, commit, transfer, write, abort_unless, sent, bytes_sent, bytes_in,
  IsPiece,
}

take-IsPiece :
    (n : ℕ) (xs : Bytes)
    → 0 < n
    → (length xs == 0) ≡ false
    → (0 < length (take n xs)) × (length (take n xs) ≤ n)
take-IsPiece n xs some_room some_bytes =
    let size = length-take n xs in
    (ground (arith, size, some_room, some_bytes), omega (arith, size))

shorter :
    (fuel : ℕ) (bytes : Bytes)
    → (length bytes == 0) ≡ false
    → length bytes ≤ suc fuel
    → length (drop max_chunk_bytes bytes) ≤ fuel
shorter fuel bytes more enough =
    let size = length-drop max_chunk_bytes bytes in ground (arith, size, more, enough)

module _ (transport : Transport) (transfer_id path : Bytes) (create_parents : Bool) where
  -- The transfer has been begun and has sent these bytes in pieces.
  abbrev Sends : Bytes → Requests → Type 0
  Sends b s =
      (pieces : List Bytes) × ((s ≡ sent transport transfer_id path create_parents pieces)
        × (bytes_sent pieces ≡ b)
        × All IsPiece pieces)

  Sends-nothing : (b : Bytes) (s : Requests) → Sends b s → Sends (b ++ []) s
  Sends-nothing b s h = subst (λ x. Sends x s) (sym (append-nil b)) h

  Sends-piece :
      (b bytes : Bytes) (s : Requests)
      → (length bytes == 0) ≡ false
      → Sends b s
      → Sends
          (b ++ take max_chunk_bytes bytes)
          (file_write_chunk transfer_id (transport.to_base64 (take max_chunk_bytes bytes)) ∷ s)
  unfolding sent bytes_sent
  Sends-piece b bytes s more (pieces, (same, content, small)) =
      let piece = take max_chunk_bytes bytes in
      (
        piece ∷ pieces,
        (
          ap (◌∷◌ (file_write_chunk transfer_id (transport.to_base64 piece))) same,
          ap (λ x. x ++ piece) content,
          (take-IsPiece max_chunk_bytes bytes (omega arith) more, small),
        ),
      )

  request_ok-Leads :
      {P : Requests → Type 0} {R : Requests → Type 0} (r : AgentRequest) (fallback : String)
      → ((s : Requests) → P s → R (r ∷ s))
      → Leads P (request_ok transport r fallback) (λ _. R)
  unfolding request_ok request
  request_ok-Leads {R = R} r fallback next =
      Triple-bind (request transport r) _
        (record {
          at = λ s h.
              After-both (λ _. R) Anything (transport.answer s r) (r ∷ s) (λ _. next s h) (λ _. tt);
        })
        λ response.
          Triple-bind (lift (require_ok response fallback)) _
            (Leads-lift (require_ok response fallback)) λ _. Triple-pure response (λ s h. h.1)

  send_slices-Sends :
      (fuel : ℕ) (bytes b : Bytes)
      → length bytes ≤ fuel
      → Leads (Sends b) (send_slices transport transfer_id fuel bytes) (λ _. Sends (b ++ bytes))
  unfolding send_slices
  send_slices-Sends zero [] b enough = Triple-pure tt (λ s h. Sends-nothing b s h)
  send_slices-Sends zero (c ∷ bytes) b enough = absurd (omega (arith, enough))
  send_slices-Sends (suc fuel) [] b enough = Triple-pure tt (λ s h. Sends-nothing b s h)
  send_slices-Sends (suc fuel) (c ∷ rest) b enough =
      let bytes = c ∷ rest in
      let more : (length bytes == 0) ≡ false = ground arith in
      rw more (
        Triple-bind
          (request_ok transport
            (file_write_chunk transfer_id (transport.to_base64 (take max_chunk_bytes bytes)))
            "Guest agent file write chunk failed")
          _ (request_ok-Leads _ _ (λ s. Sends-piece b bytes s more))
          λ _.
            Triple-weaken _
              (send_slices-Sends fuel (drop max_chunk_bytes bytes) (b ++ take max_chunk_bytes bytes)
                (shorter fuel bytes more enough))
              (λ s h. h)
              (λ _ s h.
                subst (λ x. Sends x s)
                  (append_assoc b (take max_chunk_bytes bytes) (drop max_chunk_bytes bytes)
                    ∙ ap (λ x. b ++ x) (take-append-drop max_chunk_bytes bytes))
                  h)
              (λ _ s h. h))

  send_source-Sends :
      (chunks : List Bytes) (failure : Option Thrown) (b : Bytes)
      → Leads
          (Sends b)
          (send_source transport transfer_id chunks failure)
          (λ _ s. (failure ≡ none) × Sends (b ++ bytes_in chunks) s)
  unfolding send_source bytes_in
  send_source-Sends [] none b = Triple-pure tt (λ s h. (refl, Sends-nothing b s h))
  send_source-Sends [] (some e) b = Triple-throw e (λ s h. tt)
  send_source-Sends (chunk ∷ chunks) failure b =
      Triple-bind (send_slices transport transfer_id (length chunk) chunk) _
        (send_slices-Sends (length chunk) chunk b (omega arith))
        λ _.
          Triple-weaken _ (send_source-Sends chunks failure (b ++ chunk)) (λ s h. h)
            (λ _ s (closed, h).
              (closed, subst (λ x. Sends x s) (append_assoc b chunk (bytes_in chunks)) h))
            (λ _ s h. h)

  -- What was sent when the transfer was committed.
  abbrev pub Committed : Source → Requests → Type 0
  Committed source s =
      (source.failure ≡ none)
      × ((pieces : List Bytes) × ((s
              ≡ file_write_commit transfer_id
                ∷ sent transport transfer_id path create_parents pieces)
            × (bytes_sent pieces ≡ bytes_in source.chunks)
            × All IsPiece pieces))

  commit-Committed :
      (source : Source)
      → Leads
          (λ s. (source.failure ≡ none) × Sends (bytes_in source.chunks) s)
          (commit transport transfer_id)
          (λ _. Committed source)
  unfolding commit
  commit-Committed source =
      Triple-bind (request_ok transport (file_write_commit transfer_id) _) _
        (request_ok-Leads {R = Committed source} _ _
          (λ s (closed, (pieces, (same, content, small))).
            (closed, (pieces, (ap (◌∷◌ (file_write_commit transfer_id)) same, content, small)))))
        λ r.
          Triple-bind (lift (require_number r.size)) _ (Leads-lift (require_number r.size)) λ size.
            Leads-exists _ λ _.
              Triple-bind (lift (require_digest r.digest)) _ (Leads-lift (require_digest r.digest))
                λ d. Leads-exists _ λ _. Triple-pure _ (λ s h. h)

  begun : (s : Requests) → s ≡ [] → Sends [] (file_write_begin transfer_id path create_parents ∷ s)
  unfolding sent bytes_sent
  begun s e = ([], (ap (◌∷◌ (file_write_begin transfer_id path create_parents)) e, refl, tt))

  transfer-Committed :
      (source : Source)
      → Leads
          (λ s. s ≡ [])
          (transfer transport transfer_id path source create_parents)
          (λ _. Committed source)
  unfolding transfer
  transfer-Committed source =
      Triple-bind (request_ok transport (file_write_begin transfer_id path create_parents) _) _
        (request_ok-Leads _ _ begun)
        λ _.
          Triple-bind (send_source transport transfer_id source.chunks source.failure) _
            (send_source-Sends source.chunks source.failure []) λ _. commit-Committed source

  -- How a write ends: it has committed the whole source, or its last request is the abort.
  abbrev pub Ended : Source → Result FileWritten → Requests → Type 0
  Ended source (ok written) s = Committed source s
  Ended source (err e) s = (earlier : Requests) × (s ≡ file_write_abort transfer_id ∷ earlier)

  settled :
      (source : Source) (r : Result FileWritten) (s : Requests)
      → After (λ _. Committed source) Anything r s
      → Ended source
          ((abort_unless transport transfer_id r >> lift r) s).0
          ((abort_unless transport transfer_id r >> lift r) s).1
  unfolding request
  settled source (ok written) s h = h
  settled source (err e) s h = (s, refl)

  -- A write that returns has begun the transfer, sent chunks that are not empty, hold at most
  -- 384 KiB and are together the bytes of the source, in order, and has committed the transfer
  -- last, while the source closed without an error. A write that throws has sent the abort last.
  pub write-Ended :
      (source : Source)
      → Ended source
          (write transport transfer_id path source create_parents []).0
          (write transport transfer_id path source create_parents []).1
  unfolding write
  write-Ended source =
      settled source (transfer transport transfer_id path source create_parents []).0
        (transfer transport transfer_id path source create_parents []).1
        ((transfer-Committed source).at [] refl)
