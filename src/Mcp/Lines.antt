-- ===== src/Mcp/Lines.antt =====
-- src/mcp/server.ts: `lineNumbers`, `cursorLine`, `selectedLine` and the lines of
-- `workspaceReadResult`. A text is its list of code units. `next_line` is the number at `nextLine`
-- of a cursor's JSON, where the cursor decodes to an object with a safe integer there.
pub mod Numbering
pub mod Endless
use electrosphere.Base.{
  ℕ, zero, suc, ◌+◌, Bool, true, false, not, ◌&&◌, ◌||◌, Option, none, some, List, [], ◌∷◌, any,
  length, leb, ltb, ◌==◌, if◌then◌else◌, get_or,
}
use electrosphere.Base.Bytes.{Bytes}

pub record LineRange : Type 0 where
  pub start : ℕ
  pub last : ℕ

pub record NumberedLine : Type 0 where
  pub line : ℕ
  pub text : Bytes

-- `current >= range.start && current <= range.end`.
abbrev pub in_range : ℕ → LineRange → Bool
in_range n r = leb r.start n && leb n r.last

unfoldable pub in_ranges : List LineRange → ℕ → Bool
in_ranges ranges n = any (in_range n) ranges

-- Of a range's list, or of none: then every line from the start on is selected.
unfoldable pub selected_line : (line : ℕ) → (start_line : ℕ) → Option (List LineRange) → Bool
selected_line line start_line none = not (ltb line start_line)
selected_line line start_line (some ranges) = not (ltb line start_line) && in_ranges ranges line

-- The `while`: the first number from `current` on that is in a range; none while it still runs.
unfoldable pub seek : (fuel : ℕ) → List LineRange → (current : ℕ) → Option ℕ
seek zero ranges current = none
seek (suc fuel) ranges current =
    let later = seek fuel ranges (current + 1) in
    if in_ranges ranges current then some current else later

abbrev pub prepend : NumberedLine → Option (List NumberedLine) → Option (List NumberedLine)
prepend l none = none
prepend l (some ls) = some (l ∷ ls)

-- The line at the number that was found, before those numbered behind it.
abbrev pub with_number :
    (text : Bytes) → Option ℕ → (ℕ → Option (List NumberedLine)) → Option (List NumberedLine)
with_number text none rest = none
with_number text (some n) rest = prepend (record { line = n; text = text }) (rest n)

unfoldable pub number_lines :
    (fuel : ℕ) → List LineRange → (current : ℕ) → List Bytes → Option (List NumberedLine)
number_lines fuel ranges current [] = some []
number_lines fuel ranges current (text ∷ lines) =
    with_number text (seek fuel ranges current) (λ n. number_lines fuel ranges (n + 1) lines)

abbrev pub number_all : (start_line : ℕ) → List Bytes → List NumberedLine
number_all start_line [] = []
number_all start_line (text ∷ lines) =
    record { line = start_line; text = text } ∷ number_all (start_line + 1) lines

-- `lineNumbers`, each `while` of at most `fuel` rounds; none while one still runs.
unfoldable pub line_numbers :
    (fuel : ℕ)
    → List Bytes
    → (start_line : ℕ) → Option (List LineRange)
    → Option (List NumberedLine)
line_numbers fuel lines start_line none = some (number_all start_line lines)
line_numbers fuel lines start_line (some ranges) = number_lines fuel ranges start_line lines

-- A cursor that is missing, empty or not positive gives no line.
unfoldable pub cursor_line : (next_line : Bytes → Option ℕ) → Option Bytes → Option ℕ
cursor_line next_line none = none
cursor_line next_line (some cursor) =
    if length cursor == 0
    then none
    else elim (next_line cursor) [ none ↦ none | some n ↦ if n == 0 then none else some n ]

abbrev first_start : Option (List LineRange) → Option ℕ
first_start none = none
first_start (some []) = none
first_start (some (r ∷ ranges)) = some r.start

abbrev or_else : Option ℕ → Option ℕ → Option ℕ
or_else none b = b
or_else (some a) b = some a

-- `cursorLine(args.cursor) ?? args.ranges?.[0]?.start ?? args.offset ?? 1`.
unfoldable pub start_of :
    (next_line : Bytes → Option ℕ)
    → (cursor : Option Bytes) → Option (List LineRange)
    → (offset : Option ℕ) → ℕ
start_of next_line cursor ranges offset =
    get_or (or_else (cursor_line next_line cursor) (or_else (first_start ranges) offset)) 1
