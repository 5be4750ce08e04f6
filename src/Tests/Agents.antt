-- ===== src/Tests/Agents.antt =====
-- The theorems on the agent's channel and on sessions at concrete inputs.
use electrosphere.Base.{
  ℕ, ◌+◌, ◌≤◌, ◌≡◌, refl, true, false, some, List, [], ◌∷◌, ◌++◌, any, length, ltb, ◌⊎◌,
}
use electrosphere.Base.Exec.{Result, ok, err}
use electrosphere.Domain.Errors.{plain_error}
use electrosphere.Domain.Types.{Backend}
use electrosphere.Base.Words.{read_u32_be}
use electrosphere.Agent.Frames.{encode_agent_frame, decode_agent_frame, decode-encode_agent_frame}
use electrosphere.Agent.Writer.{Writer, write, queued, write_fifo}
use electrosphere.Agent.Channel.{Channel, push}
use electrosphere.Agent.Channel.Chunks.{shown, push_chunks}
use electrosphere.Domain.Sessions.{Session, size, is_removable, reap}
use electrosphere.Domain.Sessions.Room.{reap_room}
use electrosphere.Domain.Sessions.Shaping.{shape_output, shape_output-within, shown_bytes}

-- A stand-in for `JSON.parse`.
abbrev parse : List ℕ → Result ℕ
parse [] = err (plain_error "Unexpected end of JSON input")
parse (b ∷ bytes) = ok b

abbrev frame : List ℕ
frame = 0 ∷ 0 ∷ 0 ∷ 2 ∷ 7 ∷ 9 ∷ []

encoded : encode_agent_frame (7 ∷ 9 ∷ []) ≡ ok frame
unfolding encode_agent_frame
encoded = refl

decode-encode_agent_frame_example :
    (decode_agent_frame parse frame ≡ parse (7 ∷ 9 ∷ [])) × (length frame ≡ 2 + 4)
decode-encode_agent_frame_example = decode-encode_agent_frame parse (7 ∷ 9 ∷ []) frame encoded

abbrev waiting : Channel ℕ
waiting = record { buffer = []; pending = 4 ∷ 5 ∷ []; closed = false; settled = []; written = [] }

push_chunks_example :
    shown (push parse (0 ∷ 2 ∷ 7 ∷ 9 ∷ 0 ∷ []) (push parse (0 ∷ 0 ∷ []) waiting))
    ≡ shown (push parse (0 ∷ 0 ∷ 0 ∷ 2 ∷ 7 ∷ 9 ∷ 0 ∷ []) waiting)
push_chunks_example = push_chunks parse (0 ∷ 0 ∷ []) (0 ∷ 2 ∷ 7 ∷ 9 ∷ 0 ∷ []) waiting

first_settled : (push parse frame waiting).settled ≡ (4, ok 7) ∷ []
unfolding push read_u32_be decode_agent_frame
first_settled = refl

abbrev half_sent : Writer
half_sent = record { attached = true; frames = frame ∷ []; offset = 3; sent = 0 ∷ 0 ∷ 0 ∷ [] }

no_frames : half_sent.frames ≡ [] → half_sent.offset ≡ 0
no_frames h = cc

write_fifo_example :
    ((write (3 ∷ 2 ∷ []) frame half_sent).0 ≡ ok tt)
    × ((write (3 ∷ 2 ∷ []) frame half_sent).1.sent ++ queued (write (3 ∷ 2 ∷ []) frame half_sent).1
        ≡ frame ++ frame)
write_fifo_example = write_fifo (3 ∷ 2 ∷ []) frame half_sent refl no_frames

shape_output-within_example :
    (shown_bytes (shape_output 1_000 frame (some 100) 900).output ≤ 400)
    × (shown_bytes (shape_output 1_000 frame (some 100) (length frame)).output
          + (shape_output 1_000 frame (some 100) (length frame)).omitted
        ≡ length frame)
    × ((shape_output 1_000 frame (some 100) (length frame)).truncated ≡ ltb 400 (length frame))
shape_output-within_example = shape_output-within 1_000 frame (some 100) 900

abbrev idle : Session
idle = record {
  id = "s";
  instance_id = "i";
  execution = record {
    backend = Backend.docker;
    instance_id = "i";
    execution_id = "e";
    opaque_id = "o";
    tty = false;
  };
  cwd = "/workspace";
  tty = false;
  cursor = 0;
  last_used_at = 1;
  expires_at = 2;
  active = false;
  listed = true;
}

reap_room_example :
    (ltb (size (reap 3 (idle ∷ []))) 64 ≡ true) ⊎ (any is_removable (reap 3 (idle ∷ [])) ≡ false)
reap_room_example = reap_room 3 (idle ∷ [])
