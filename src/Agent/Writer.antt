-- ===== src/Agent/Writer.antt =====
-- src/backends/agent-transport.ts: `SocketFrameWriter`.
use electrosphere.Base.{
  ℕ, ◌+◌, ◌≡◌, refl, ap, sym, ◌∙◌, append_assoc, append-nil, drop-drop, take_all, take-append-drop,
  length-drop, Bool-cases, inl, inr, Bool, true, false, List, [], ◌∷◌, ◌++◌, arith, length, take,
  drop, ltb, ◌==◌, if◌then◌else◌,
}
use electrosphere.Base.Exec.{ok, err, Exec}
use electrosphere.Domain.Errors.{plain_error}

-- `attached` says whether there is a socket, and `sent` is what the socket took so far.
pub record Writer : Type 0 where
  pub attached : Bool
  pub frames : List (List ℕ)
  pub offset : ℕ
  pub sent : List ℕ

-- The loop of `flush`. The socket answers each write with the number of bytes that it took (0 for
-- a negative answer); after the answers of this flush it takes nothing.
flush_frames : List ℕ → List (List ℕ) → ℕ → List ℕ → List (List ℕ) × ℕ × List ℕ
flush_frames [] frames offset sent = (frames, offset, sent)
flush_frames (n ∷ answers) [] offset sent = ([], offset, sent)
flush_frames (n ∷ answers) (frame ∷ frames) offset sent =
    let rest = flush_frames answers frames 0 (sent ++ take n (drop offset frame)) in
    if n == 0
    then (frame ∷ frames, offset, sent)
    else if ltb (offset + n) (length frame)
    then (frame ∷ frames, offset + n, sent ++ take n (drop offset frame))
    else rest

abbrev flushed : Writer → List (List ℕ) × ℕ × List ℕ → Writer
flushed w (frames, offset, sent) = record w { frames = frames; offset = offset; sent = sent }

unfoldable pub flush : List ℕ → Writer → Writer
unfolding flush_frames
flush answers w =
    if w.attached then flushed w (flush_frames answers w.frames w.offset w.sent) else w

abbrev pub attach : Writer → Writer
attach w = record w { attached = true }

unfoldable pub write : List ℕ → List ℕ → Exec Writer (Unit {0})
unfolding flush
write answers frame w =
    if w.attached
    then (ok tt, flush answers (record w { frames = w.frames ++ (frame ∷ []) }))
    else (err (plain_error "Agent socket is unavailable"), w)

unfoldable pub drain : List ℕ → Writer → Writer
unfolding flush
drain answers w = flush answers w

abbrev pub clear : Writer → Writer
clear w = record w { frames = []; offset = 0; attached = false }

-- The bytes that wait, in their order.
abbrev concat : List (List ℕ) → List ℕ
concat [] = []
concat (f ∷ fs) = f ++ concat fs

abbrev pub queued_in : List (List ℕ) → ℕ → List ℕ
queued_in [] offset = []
queued_in (f ∷ fs) offset = drop offset f ++ concat fs

abbrev pub queued : Writer → List ℕ
queued w = queued_in w.frames w.offset

queued_in-0 : (fs : List (List ℕ)) → queued_in fs 0 ≡ concat fs
queued_in-0 [] = refl
queued_in-0 (f ∷ fs) = refl

concat-append : (fs : List (List ℕ)) (f : List ℕ) → concat (fs ++ (f ∷ [])) ≡ concat fs ++ f
concat-append [] f = append-nil f
concat-append (g ∷ fs) f =
    ap (λ bytes. g ++ bytes) (concat-append fs f) ∙ sym (append_assoc g (concat fs) f)

all_bytes : List (List ℕ) × ℕ × List ℕ → List ℕ
all_bytes (frames, offset, sent) = sent ++ queued_in frames offset

-- A frame of which the socket took `n` bytes, and of which more are left.
took_some :
    (n offset : ℕ) (f sent rest : List ℕ)
    → (sent ++ take n (drop offset f)) ++ (drop (offset + n) f ++ rest)
      ≡ sent ++ (drop offset f ++ rest)
took_some n offset f sent rest =
    append_assoc sent (take n (drop offset f)) (drop (offset + n) f ++ rest)
    ∙ ap (λ bytes. sent ++ bytes)
        (sym (append_assoc (take n (drop offset f)) (drop (offset + n) f) rest)
          ∙ ap (λ bytes. bytes ++ rest)
              (ap (λ bytes. take n (drop offset f) ++ bytes)
                  (sym (drop-drop offset n (offset + n) f refl))
                ∙ take-append-drop n (drop offset f)))

-- A frame that the socket took to its end.
took_all :
    (n offset : ℕ) (f sent rest : List ℕ)
    → ltb (offset + n) (length f) ≡ false
    → (sent ++ take n (drop offset f)) ++ rest ≡ sent ++ (drop offset f ++ rest)
took_all n offset f sent rest h =
    append_assoc sent (take n (drop offset f)) rest
    ∙ ap (λ bytes. sent ++ (bytes ++ rest))
        (take_all n (drop offset f) (ground (arith, h, length-drop offset f)))

flush_frames-all_bytes :
    (answers : List ℕ) (frames : List (List ℕ)) (offset : ℕ) (sent : List ℕ)
    → all_bytes (flush_frames answers frames offset sent) ≡ sent ++ queued_in frames offset
unfolding flush_frames all_bytes
flush_frames-all_bytes [] frames offset sent = refl
flush_frames-all_bytes (n ∷ answers) [] offset sent = refl
flush_frames-all_bytes (n ∷ answers) (f ∷ fs) offset sent = elim (Bool-cases (n == 0)) [
  | inl e ↦ rw e
  | inr e ↦ elim (Bool-cases (ltb (offset + n) (length f))) [
    | inl more ↦ rw (e, more) (took_some n offset f sent (concat fs))
    | inr last ↦
        rw (e, last)
          (flush_frames-all_bytes answers fs 0 (sent ++ take n (drop offset f))
            ∙ (rw (queued_in-0 fs) (took_all n offset f sent (concat fs) last)))
  ]
]

-- `flush` neither loses, repeats nor reorders a byte, whatever the socket answers: what the socket
-- took, followed by what waits, stays the same.
pub flush-keeps_bytes :
    (answers : List ℕ) (w : Writer)
    → (flush answers w).sent ++ queued (flush answers w) ≡ w.sent ++ queued w
unfolding flush all_bytes
flush-keeps_bytes answers w = elim (Bool-cases w.attached) [
  | inl e ↦ rw e (flush_frames-all_bytes answers w.frames w.offset w.sent)
  | inr e ↦ rw e
]

queued_in-append :
    (fs : List (List ℕ)) (f : List ℕ) (offset : ℕ)
    → (fs ≡ [] → offset ≡ 0)
    → queued_in (fs ++ (f ∷ [])) offset ≡ queued_in fs offset ++ f
queued_in-append [] f offset start = rw (start refl) (append-nil f)
queued_in-append (g ∷ fs) f offset start =
    ap (λ bytes. drop offset g ++ bytes) (concat-append fs f)
    ∙ sym (append_assoc (drop offset g) (concat fs) f)

-- A frame that a writer with a socket is given goes behind every byte that was written before it: what the socket took,
-- followed by what waits, becomes that of before followed by the frame, whatever the socket answers.
-- Without frames,
-- the writer has the offset 0.
pub write_fifo :
    (answers frame : List ℕ) (w : Writer)
    → w.attached ≡ true
    → (w.frames ≡ [] → w.offset ≡ 0)
    → ((write answers frame w).0 ≡ ok tt)
      × ((write answers frame w).1.sent ++ queued (write answers frame w).1
          ≡ (w.sent ++ queued w) ++ frame)
unfolding write all_bytes
write_fifo answers frame w attached start = rw attached (
  refl,
  flush_frames-all_bytes answers (w.frames ++ (frame ∷ [])) w.offset w.sent
      ∙ ap (λ bytes. w.sent ++ bytes) (queued_in-append w.frames frame w.offset start)
      ∙ sym (append_assoc w.sent (queued w) frame),
)
