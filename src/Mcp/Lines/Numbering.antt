-- ===== src/Mcp/Lines/Numbering.antt =====
-- `lineNumbers` of src/mcp/server.ts on the lines that the ranges select.
use electrosphere.Base.{
  ℕ, zero, suc, ◌+◌, ◌≤◌, ◌<◌, ◌≡◌, ap, refl, sym, subst, true, false, Option, none, some, List, [],
  ◌∷◌, arith, ltb→lt, map, take, length, Bool-cases, inl, inr, ltb, if◌then◌else◌,
}
use electrosphere.Base.Bytes.{Bytes}
use electrosphere.Mcp.Lines.{
  LineRange, NumberedLine, in_ranges, selected_line, seek, number_lines, line_numbers, number_all,
}

-- The lines of a document from `current` on that are selected, with their numbers.
unfoldable pub selected_lines :
    (start_line : ℕ)
    → Option (List LineRange)
    → (current : ℕ) → (document : List Bytes) → List NumberedLine
selected_lines start_line ranges current [] = []
selected_lines start_line ranges current (text ∷ document) =
    let rest = selected_lines start_line ranges (current + 1) document in
    if selected_line current start_line ranges
    then record { line = current; text = text } ∷ rest
    else rest

abbrev pub text_of : NumberedLine → Bytes
text_of l = l.text

module _ (start_line : ℕ) (ranges : Option (List LineRange)) where
  selected_lines-skip :
      (current : ℕ) (text : Bytes) (document : List Bytes)
      → selected_line current start_line ranges ≡ false
      → selected_lines start_line ranges current (text ∷ document)
        ≡ selected_lines start_line ranges (current + 1) document
  unfolding selected_lines
  selected_lines-skip current text document h = rw h refl

  selected_lines-keep :
      (current : ℕ) (text : Bytes) (document : List Bytes)
      → selected_line current start_line ranges ≡ true
      → selected_lines start_line ranges current (text ∷ document)
        ≡ record { line = current; text = text }
          ∷ selected_lines start_line ranges (current + 1) document
  unfolding selected_lines
  selected_lines-keep current text document h = rw h refl

module _ (start_line : ℕ) where
  selected_line-early :
      (ranges : Option (List LineRange)) (line : ℕ)
      → line < start_line
      → selected_line line start_line ranges ≡ false
  unfolding selected_line
  selected_line-early none line early = ground (arith, early)
  selected_line-early (some ranges) line early = ground (arith, early)

  selected_line-in :
      (ranges : List LineRange) (line : ℕ)
      → start_line ≤ line
      → selected_line line start_line (some ranges) ≡ in_ranges ranges line
  unfolding selected_line
  selected_line-in ranges line from_start =
      let late : ltb line start_line ≡ false = ground (arith, from_start) in rw late refl

seek-found :
    (fuel : ℕ) (ranges : List LineRange) (current n : ℕ)
    → current ≤ n
    → n < current + fuel
    → ((k : ℕ) → current ≤ k → k < n → in_ranges ranges k ≡ false)
    → in_ranges ranges n ≡ true
    → seek fuel ranges current ≡ some n
unfolding seek
seek-found zero ranges current n before near unselected found = absurd (omega (arith, before, near))
seek-found (suc fuel) ranges current n before near unselected found =
    elim (Bool-cases (ltb current n)) [
      | inl less ↦ rw (unselected current (omega arith) (ltb→lt _ _ less)) (
          seek-found fuel ranges (current + 1) n (omega (arith, ltb→lt current n less))
            (omega (arith, near)) (λ k later. unselected k (omega (arith, later))) found)
      | inr here ↦ let same : current ≡ n = ground (arith, before, here) in rw (same, found) refl
    ]

-- No number from the first on, up to the second, is in a range.
abbrev Unselected : List LineRange → ℕ → ℕ → Type 0
Unselected ranges current n = (k : ℕ) → current ≤ k → k < n → in_ranges ranges k ≡ false

Unselected-suc :
    (ranges : List LineRange) (current n : ℕ)
    → Unselected ranges current n
    → in_ranges ranges n ≡ false
    → Unselected ranges current (n + 1)
Unselected-suc ranges current n h out k p q = elim (Bool-cases (ltb k n)) [
  | inl less ↦ h k p (ltb→lt k n less)
  | inr here ↦
      let same : k ≡ n = ground (arith, q, here) in
      subst (λ j. in_ranges ranges j ≡ false) (sym same) out
]

module _ (fuel : ℕ) (ranges : List LineRange) where
  number_lines-nil : (current : ℕ) → number_lines fuel ranges current [] ≡ some []
  unfolding number_lines
  number_lines-nil current = refl

  number_lines-cons :
      (current n : ℕ) (text : Bytes) (lines : List Bytes) (ls : List NumberedLine)
      → seek fuel ranges current ≡ some n
      → number_lines fuel ranges (n + 1) lines ≡ some ls
      → number_lines fuel ranges current (text ∷ lines)
        ≡ some (record { line = n; text = text } ∷ ls)
  unfolding number_lines
  number_lines-cons current n text lines ls found rest = rw (found, rest) refl

module _ (fuel start_line : ℕ) (ranges : List LineRange) where
  abbrev Numbers : List Bytes → (m current n : ℕ) → Type 0
  Numbers document m current n =
      let selected = take m (selected_lines start_line (some ranges) n document) in
      number_lines fuel ranges current (map text_of selected) ≡ some selected

  Numbers-selected :
      (document : List Bytes) (m current n : ℕ)
      → start_line ≤ current
      → current ≤ n
      → n + length document < current + fuel
      → Unselected ranges current n
      → Numbers document m current n
  unfolding selected_lines
  Numbers-selected document zero current n p q r unselected = number_lines-nil fuel ranges current
  Numbers-selected [] (suc m) current n p q r unselected = number_lines-nil fuel ranges current
  Numbers-selected (text ∷ document) (suc m) current n p q r unselected =
      let is_in = selected_line-in start_line ranges n (omega (arith, p, q)) in
      elim (Bool-cases (in_ranges ranges n)) [
        | inl found ↦
            rw (is_in, found)
              (number_lines-cons fuel ranges current n text _ _
                (seek-found fuel ranges current n q (omega (arith, r)) unselected found)
                (Numbers-selected document m (n + 1) (n + 1) (omega (arith, p, q)) (omega arith)
                  (omega (arith, r, q)) (λ k late early. absurd (omega (arith, late, early)))))
        | inr out ↦
            rw (is_in, out)
              (Numbers-selected document (suc m) current (n + 1) p (omega (arith, q))
                (omega (arith, r)) (Unselected-suc ranges current n unselected out))
      ]

  -- The lines before the start are not selected.
  Numbers-from :
      (document : List Bytes) (m n : ℕ)
      → length document < fuel
      → n ≤ start_line
      → Numbers document m start_line n
  unfolding selected_lines
  Numbers-from [] zero n enough before = number_lines-nil fuel ranges start_line
  Numbers-from [] (suc m) n enough before = number_lines-nil fuel ranges start_line
  Numbers-from (text ∷ document) m n enough before = elim (Bool-cases (ltb n start_line)) [
    | inl early ↦ rw (selected_line-early start_line (some ranges) n (ltb→lt n start_line early)) (
        Numbers-from document m (n + 1) (omega (arith, enough))
          (omega (arith, ltb→lt n start_line early)))
    | inr here ↦
        let same : n ≡ start_line = ground (arith, before, here) in
        subst (λ k. Numbers (text ∷ document) m start_line k) (sym same)
          (Numbers-selected (text ∷ document) m start_line start_line (omega arith) (omega arith)
            (omega (arith, enough)) (λ k late early. absurd (omega (arith, late, early))))
  ]

module _ (start_line : ℕ) where
  abbrev AllNumbers : List Bytes → (m current n : ℕ) → Type 0
  AllNumbers document m current n =
      let selected = take m (selected_lines start_line none n document) in
      number_all current (map text_of selected) ≡ selected

  selected_line-late : (line : ℕ) → start_line ≤ line → selected_line line start_line none ≡ true
  unfolding selected_line
  selected_line-late line late = ground (arith, late)

  AllNumbers-late : (document : List Bytes) (m n : ℕ) → start_line ≤ n → AllNumbers document m n n
  unfolding selected_lines
  AllNumbers-late document zero n late = refl
  AllNumbers-late [] (suc m) n late = refl
  AllNumbers-late (text ∷ document) (suc m) n late = rw (selected_line-late n late) (
      ap (◌∷◌ (record { line = n; text = text }))
        (AllNumbers-late document m (n + 1) (omega (arith, late))))

  AllNumbers-from :
      (document : List Bytes) (m n : ℕ) → n ≤ start_line → AllNumbers document m start_line n
  unfolding selected_lines
  AllNumbers-from [] zero n before = refl
  AllNumbers-from [] (suc m) n before = refl
  AllNumbers-from (text ∷ document) m n before = elim (Bool-cases (ltb n start_line)) [
    | inl early ↦
        rw (selected_line-early start_line none n (ltb→lt n start_line early))
          (AllNumbers-from document m (n + 1) (omega (arith, ltb→lt n start_line early)))
    | inr here ↦
        let same : n ≡ start_line = ground (arith, before, here) in
        subst (λ k. AllNumbers (text ∷ document) m start_line k) (sym same)
          (AllNumbers-late (text ∷ document) m start_line (omega arith))
  ]

-- The first lines of a document's selection, as many as there are or fewer, are numbered as they
-- are in the document, with ranges or without, if the start is a line number: numbering ends when
-- each search may look at one number more than the document has lines.
pub line_numbers-selected_lines :
    (document : List Bytes) (m start_line fuel : ℕ) (ranges : Option (List LineRange))
    → 1 ≤ start_line
    → length document < fuel
    → line_numbers fuel
        (map text_of (take m (selected_lines start_line ranges 1 document)))
        start_line
        ranges
      ≡ some (take m (selected_lines start_line ranges 1 document))
unfolding line_numbers
line_numbers-selected_lines document m start_line fuel none positive enough =
    ap some (AllNumbers-from start_line document m 1 positive)
line_numbers-selected_lines document m start_line fuel (some ranges) positive enough =
    Numbers-from fuel start_line ranges document m 1 enough positive
