-- ===== src/Export/Reader.antt =====
-- A reader of one line of such a file, the way RFC 4180 describes it, and that it reads back what was
-- written.
use shape_and_flow.Base.{
  ℕ, ◌≡◌, refl, sym, ap, ◌∙◌, inl, inr, false, List, [], ◌∷◌, ◌++◌, map, arith, ◌==◌, if◌then◌else◌,
  Bool-cases, ==_iff,
}
use mathlib.Core.List.{append_assoc, append-nil}
use shape_and_flow.Base.Text.{Text}
use shape_and_flow.Export.Csv.{
  delimiter, quote, carriage_return, line_feed, needs_quoting, neutralise, CsvCell, absent, written,
  printed, double_quotes, quoted, to_csv_cell, joined, to_csv_row, csv_line,
}

-- Where the reader stands: before a field, in one, in a quoted one, or behind a quote in one.
pub data Mode : Type 0 where
  at_start : Mode
  in_plain in_quotes behind_quote : Text → Mode

pub data Step : Type 0 where
  goes : Mode → Step
  emits : Text → Step
  ends : Text → Step

-- Outside quotes a delimiter ends the field, and a line break the line.
abbrev pub outside : Text → ℕ → Step → Step
outside field c other =
    if c == delimiter then emits field else if c == carriage_return then ends field else other

unfoldable pub next_step : Mode → ℕ → Step
next_step at_start c =
    if c == quote then goes (in_quotes []) else outside [] c (goes (in_plain (c ∷ [])))
next_step (in_plain field) c = outside field c (goes (in_plain (field ++ (c ∷ []))))
next_step (in_quotes field) c =
    if c == quote then goes (behind_quote field) else goes (in_quotes (field ++ (c ∷ [])))
next_step (behind_quote field) c =
    if c == quote
    then goes (in_quotes (field ++ (quote ∷ [])))
    else outside field c (goes (in_plain (field ++ (c ∷ []))))

abbrev pub field_of : Mode → Text
field_of at_start = []
field_of (in_plain field) = field
field_of (in_quotes field) = field
field_of (behind_quote field) = field

unfoldable pub read : Mode → Text → List Text
unfolding next_step
read m [] = field_of m ∷ []
read m (c ∷ more) = elim (next_step m c) [
  | goes n ↦ read n more
  | emits field ↦ field ∷ read at_start more
  | ends field ↦ field ∷ []
]

unfoldable pub read_line : Text → List Text
unfolding read
read_line line = read at_start line

-- What a cell shows: nothing, or its text with the defence.
abbrev pub shown : CsvCell → Text
shown absent = []
shown (written value) = neutralise value
shown (printed value) = neutralise value

-- A text without special characters.
no_special :
    (c : ℕ) (value : Text)
    → needs_quoting (c ∷ value) ≡ false
    → ((c == delimiter) ≡ false)
      × ((c == quote) ≡ false)
      × ((c == carriage_return) ≡ false)
      × (needs_quoting value ≡ false)
unfolding needs_quoting
no_special c value h = (ground arith, ground arith, ground arith, ground arith)

plain_run :
    (value field rest : Text)
    → needs_quoting value ≡ false
    → read (in_plain field) (value ++ rest) ≡ read (in_plain (field ++ value)) rest
unfolding needs_quoting read next_step
plain_run [] field rest h = ap (λ x. read (in_plain x) rest) (sym (append-nil field))
plain_run (c ∷ value) field rest h =
    let (no_delimiter, no_quote, no_break, later) = no_special c value h in
    rw (no_delimiter, no_break, next_step, read)
      (plain_run value (field ++ (c ∷ [])) rest later
        ∙ ap (λ x. read (in_plain x) rest) (append_assoc field (c ∷ []) value))

double_quotes-other :
    (c : ℕ) (value : Text)
    → (c == quote) ≡ false
    → double_quotes (c ∷ value) ≡ c ∷ double_quotes value
unfolding double_quotes
double_quotes-other c value h = rw (h) refl

in_quotes_step :
    (field more : Text) (c : ℕ)
    → (c == quote) ≡ false
    → read (in_quotes field) (c ∷ more) ≡ read (in_quotes (field ++ (c ∷ []))) more
unfolding read next_step
in_quotes_step field more c h = rw (read, next_step, h) refl

quoted_run :
    (value field rest : Text)
    → read (in_quotes field) (double_quotes value ++ (quote ∷ rest))
      ≡ read (behind_quote (field ++ value)) rest
unfolding double_quotes read next_step
quoted_run [] field rest = ap (λ x. read (behind_quote x) rest) (sym (append-nil field))
quoted_run (c ∷ value) field rest = elim (Bool-cases (c == quote)) [
  | inl hit ↦
      let same : c ≡ quote = (==_iff c quote).0 hit in
      rw (hit) (
        quoted_run value (field ++ (quote ∷ [])) rest
        ∙ ap (λ x. read (behind_quote x) rest)
            (append_assoc field (quote ∷ []) value ∙ ap (λ x. field ++ (x ∷ value)) (sym same)))
  | inr miss ↦
      ap (λ x. read (in_quotes field) (x ++ (quote ∷ rest))) (double_quotes-other c value miss)
      ∙ in_quotes_step field (double_quotes value ++ (quote ∷ rest)) c miss
      ∙ (quoted_run value (field ++ (c ∷ [])) rest
          ∙ ap (λ x. read (behind_quote x) rest) (append_assoc field (c ∷ []) value))
]

-- What ends a field, and what the reader finds behind it.
record Closes (rest : Text) (later : List Text) : Type 0 where
  when_empty : read at_start rest ≡ [] ∷ later
  when_plain : (field : Text) → read (in_plain field) rest ≡ field ∷ later
  when_quoted : (field : Text) → read (behind_quote field) rest ≡ field ∷ later

plain_cell :
    (value rest : Text) (later : List Text)
    → needs_quoting value ≡ false
    → Closes rest later
    → read at_start (value ++ rest) ≡ value ∷ later
unfolding read next_step
plain_cell [] rest later h w = w.when_empty
plain_cell (c ∷ value) rest later h w =
    let (no_delimiter, no_quote, no_break, more) = no_special c value h in
    rw (no_quote, no_delimiter, no_break, next_step, read)
      (plain_run value (c ∷ []) rest more ∙ w.when_plain (c ∷ value))

quoted_cell :
    (value rest : Text) (later : List Text)
    → Closes rest later
    → read at_start (quoted value ++ rest) ≡ value ∷ later
unfolding quoted read next_step
quoted_cell value rest later w = elim (Bool-cases (needs_quoting value)) [
  | inr no_need ↦ rw (no_need, quoted) (plain_cell value rest later no_need w)
  | inl need ↦
      rw (need, quoted)
        (ap (read (in_quotes [])) (append_assoc (double_quotes value) (quote ∷ []) rest)
          ∙ quoted_run value [] rest
          ∙ w.when_quoted value)
]

cell_read :
    (cell : CsvCell) (rest : Text) (later : List Text)
    → Closes rest later
    → read at_start (to_csv_cell cell ++ rest) ≡ shown cell ∷ later
unfolding to_csv_cell
cell_read absent rest later w = w.when_empty
cell_read (written value) rest later w = quoted_cell (neutralise value) rest later w
cell_read (printed value) rest later w = quoted_cell (neutralise value) rest later w

abbrev line_end : Text
line_end = carriage_return ∷ line_feed ∷ []

joined-Closes : (cells : List CsvCell) → Closes (joined cells ++ line_end) (map shown cells)
unfolding joined read next_step
joined-Closes [] = record {
  when_empty = refl;
  when_plain = λ field. refl;
  when_quoted = λ field. refl;
}
joined-Closes (cell ∷ cells) =
    let next =
      ap (read at_start) (append_assoc (to_csv_cell cell) (joined cells) line_end)
      ∙ cell_read cell (joined cells ++ line_end) (map shown cells) (joined-Closes cells) in
    record {
      when_empty = ap (λ fields. [] ∷ fields) next;
      when_plain = λ field. ap (λ fields. field ∷ fields) next;
      when_quoted = λ field. ap (λ fields. field ∷ fields) next;
    }

-- A reader that goes by RFC 4180, with semicolons, reads of a line of at least one cell the text of
-- every cell, in order, with the defence against formulas: whatever delimiters, quotes and line
-- breaks the cells hold.
pub read_line-csv_line :
    (cell : CsvCell) (cells : List CsvCell)
    → read_line (csv_line (cell ∷ cells)) ≡ map shown (cell ∷ cells)
unfolding read_line csv_line to_csv_row
read_line-csv_line cell cells =
    ap (read at_start) (append_assoc (to_csv_cell cell) (joined cells) line_end)
    ∙ cell_read cell (joined cells ++ line_end) (map shown cells) (joined-Closes cells)
