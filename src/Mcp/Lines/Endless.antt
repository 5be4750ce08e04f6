-- ===== src/Mcp/Lines/Endless.antt =====
-- `lineNumbers` of src/mcp/server.ts on lines that no range selects.
use electrosphere.Base.{ℕ, zero, suc, ◌+◌, ◌≤◌, ◌≡◌, refl, false, none, some, List, ◌∷◌, arith}
use electrosphere.Base.Bytes.{Bytes}
use electrosphere.Mcp.Lines.{LineRange, in_ranges, seek, number_lines, line_numbers}

seek-unselected :
    (fuel : ℕ) (ranges : List LineRange) (current : ℕ)
    → ((n : ℕ) → current ≤ n → in_ranges ranges n ≡ false)
    → seek fuel ranges current ≡ none
unfolding seek
seek-unselected zero ranges current unselected = refl
seek-unselected (suc fuel) ranges current unselected =
    rw (unselected current (omega arith))
      (seek-unselected fuel ranges (current + 1) (λ n later. unselected n (omega (arith, later))))

-- When a line is left to number and no range selects a number from the start on, numbering never
-- ends: no number of rounds is enough. An empty list of ranges is such a list.
pub line_numbers_endless :
    (fuel : ℕ) (line : Bytes) (lines : List Bytes) (start_line : ℕ) (ranges : List LineRange)
    → ((n : ℕ) → start_line ≤ n → in_ranges ranges n ≡ false)
    → line_numbers fuel (line ∷ lines) start_line (some ranges) ≡ none
unfolding line_numbers number_lines
line_numbers_endless fuel line lines start_line ranges unselected =
    rw (seek-unselected fuel ranges start_line unselected) refl
