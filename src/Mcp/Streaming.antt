-- ===== src/Mcp/Streaming.antt =====
-- src/mcp/server.ts: `streamArtifactLines`. `decode` is the fatal UTF-8 decoder: the text that a
-- chunk adds after the chunks before it, or none where it throws, and `flush` the same at the end.
-- `json_size` is the length of the JSON text of lines.
use electrosphere.Base.{
  ℕ, ◌+◌, Bool, false, not, ◌&&◌, ◌||◌, Option, none, some, List, [], ◌∷◌, ◌++◌, any, length, ltb,
  leb, ◌==◌, if◌then◌else◌, get_or, is_some,
}
use electrosphere.Base.Bytes.{Bytes}
use electrosphere.Base.Exec.{Result, ok, err}
use electrosphere.Domain.Errors.{ErrorCode, throws}
use electrosphere.Mcp.Files.{Source}
use electrosphere.Mcp.Lines.{LineRange, selected_line, start_of}

-- What is selected: `maximum` is none for no maximum.
pub record Selection : Type 0 where
  pub start_line : ℕ
  pub ranges : Option (List LineRange)
  pub maximum : Option ℕ

pub record LineState : Type 0 where
  pub pending : Bytes
  pub line_number : ℕ
  pub lines : List Bytes
  pub next_line : Option ℕ

-- `MAX_TEXT_RESPONSE_BYTES`.
abbrev max_text_response_bytes : ℕ
max_text_response_bytes = 524_288

abbrev at_maximum : Option ℕ → ℕ → Bool
at_maximum none n = false
at_maximum (some maximum) n = leb maximum n

abbrev push_line : Bytes → List Bytes → List Bytes
push_line line lines = lines ++ (line ∷ [])

module _ (json_size : List Bytes → ℕ) (selection : Selection) where
  -- `accept`: it returns false where it sets the next line.
  unfoldable pub accept : Bytes → LineState → LineState
  accept line s =
      let n = s.line_number + 1 in
      if not (selected_line n selection.start_line selection.ranges)
      then record s { line_number = n }
      else if at_maximum selection.maximum (length s.lines)
          || ltb max_text_response_bytes (json_size (push_line line s.lines))
      then record s { line_number = n; next_line = some n }
      else record s { line_number = n; lines = push_line line s.lines }

  -- Lines are accepted up to the first that is not.
  unfoldable pub accept_lines : List Bytes → LineState → LineState
  accept_lines [] s = s
  accept_lines (line ∷ lines) s =
      let rest = accept_lines lines (accept line s) in
      if is_some (accept line s).next_line then accept line s else rest

abbrev with_first : ℕ → List Bytes × Bytes → List Bytes × Bytes
with_first c ([], rest) = ([], c ∷ rest)
with_first c (line ∷ lines, rest) = ((c ∷ line) ∷ lines, rest)

-- The lines of a text that end, with their newlines, and the rest.
unfoldable pub complete_lines : Bytes → List Bytes × Bytes
complete_lines [] = ([], [])
complete_lines (c ∷ text) =
    let (lines, rest) = complete_lines text in
    if c == 10 then ((c ∷ []) ∷ lines, rest) else with_first c (lines, rest)

module _ (json_size : List Bytes → ℕ) (selection : Selection) where
  -- The text of a chunk: the lines that it ends are accepted.
  unfoldable pub feed : Bytes → LineState → LineState
  feed text s =
      let (lines, rest) = complete_lines (s.pending ++ text) in
      accept_lines json_size selection lines (record s { pending = rest })

  -- What is left at the end is a line, unless it is empty.
  unfoldable pub finish_lines : LineState → LineState
  finish_lines s = if length s.pending == 0 then s else accept json_size selection s.pending s

  module _ (decode : (before : List Bytes) → Bytes → Option Bytes)
      (flush : List Bytes → Option Bytes) where
    abbrev end_lines : Option Bytes → LineState → Option LineState
    end_lines none s = none
    end_lines (some text) s = some (finish_lines (record s { pending = s.pending ++ text }))

    -- The loop over the chunks; none for a binary stream.
    unfoldable pub read_lines :
        (before : List Bytes) → Source → List Bytes → LineState → Result (Option LineState)
    read_lines before source [] s = elim source.failure [
      | some e ↦ err e
      | none ↦ ok (end_lines (flush before) s)
    ]
    read_lines before source (chunk ∷ chunks) s = elim (decode before chunk) [
      | none ↦ ok none
      | some text ↦
          let rest = read_lines (before ++ (chunk ∷ [])) source chunks (feed text s) in
          if is_some (feed text s).next_line then ok (some (feed text s)) else rest
    ]

abbrev insert_range : LineRange → List LineRange → List LineRange
insert_range r [] = r ∷ []
insert_range r (q ∷ ranges) =
    if ltb r.start q.start then r ∷ q ∷ ranges else q ∷ insert_range r ranges

-- `sort` by the start, which keeps the order of equal starts.
abbrev sort_onto : List LineRange → List LineRange → List LineRange
sort_onto sorted [] = sorted
sort_onto sorted (r ∷ ranges) = sort_onto (insert_range r sorted) ranges

abbrev sorted_ranges : Option (List LineRange) → Option (List LineRange)
sorted_ranges none = none
sorted_ranges (some ranges) = some (sort_onto [] ranges)

abbrev is_reversed : LineRange → Bool
is_reversed r = ltb r.last r.start

abbrev any_reversed : Option (List LineRange) → Bool
any_reversed none = false
any_reversed (some ranges) = any is_reversed ranges

-- The checks before the stream is opened, and what is selected.
unfoldable pub select_lines :
    (next_line : Bytes → Option ℕ)
    → (cursor : Option Bytes) → (ranges : Option (List LineRange)) → (offset limit : Option ℕ)
    → Result Selection
select_lines next_line cursor ranges offset limit =
    if is_some ranges && (is_some offset || is_some limit)
    then err (throws ErrorCode.invalid_argument "ranges cannot be combined with offset or limit")
    else if any_reversed (sorted_ranges ranges)
    then err (throws ErrorCode.invalid_argument "Line range is invalid")
    else ok (record {
      start_line = start_of next_line cursor (sorted_ranges ranges) offset;
      ranges = sorted_ranges ranges;
      maximum = if is_some ranges then none else some (get_or limit 200);
    })

abbrev pub no_lines : LineState
no_lines = record { pending = []; line_number = 0; lines = []; next_line = none }
