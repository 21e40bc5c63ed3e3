-- ===== src/Export/Csv.antt =====
-- booking-app/apps/api/src/office/csv.ts: cells, rows, and the defence against formulas.
use shape_and_flow.Base.{
  ℕ, Bool, true, false, ◌&&◌, ◌||◌, List, [], ◌∷◌, ◌++◌, any, leb, ◌==◌, if◌then◌else◌,
}
use shape_and_flow.Base.Text.{Text}

-- `CSV_DELIMITER`, a quote, and the two characters of `CSV_NEWLINE`.
abbrev pub delimiter : ℕ
delimiter = b';'

abbrev pub quote : ℕ
quote = b'"'

abbrev pub carriage_return : ℕ
carriage_return = 13

abbrev pub line_feed : ℕ
line_feed = 10

abbrev pub is_special : ℕ → Bool
is_special c = c == delimiter || c == quote || c == carriage_return || c == line_feed

-- `NEEDS_QUOTING`.
unfoldable pub needs_quoting : Text → Bool
needs_quoting value = any is_special value

abbrev pub leads : ℕ → Bool
leads c = c == b'=' || c == b'+' || c == b'-' || c == b'@' || c == 9 || c == carriage_return

-- `FORMULA_LEAD`.
unfoldable pub formula_lead : Text → Bool
formula_lead [] = false
formula_lead (c ∷ more) = leads c

abbrev pub is_numeral : ℕ → Bool
is_numeral c = leb b'0' c && leb c b'9'

-- What may follow the first digit behind the point: digits to the end.
unfoldable pub only_numerals : Text → Bool
only_numerals [] = true
only_numerals (c ∷ more) = is_numeral c && only_numerals more

unfoldable pub some_numerals : Text → Bool
unfolding only_numerals
some_numerals [] = false
some_numerals (c ∷ more) = is_numeral c && only_numerals more

-- What may follow the first digit: digits, then perhaps a point and at least one more.
unfoldable pub number_tail : Text → Bool
unfolding some_numerals
number_tail [] = true
number_tail (c ∷ more) =
    let rest = number_tail more in
    if is_numeral c then rest else (c == b'.' || c == b',') && some_numerals more

unfoldable pub unsigned_number : Text → Bool
unfolding number_tail
unsigned_number [] = false
unsigned_number (c ∷ more) = is_numeral c && number_tail more

-- `PLAIN_NUMBER`.
unfoldable pub plain_number : Text → Bool
unfolding unsigned_number
plain_number [] = false
plain_number (c ∷ more) = if c == b'-' then unsigned_number more else unsigned_number (c ∷ more)

unfoldable pub neutralise : Text → Text
unfolding plain_number formula_lead
neutralise value =
    if plain_number value then value else if formula_lead value then b'\'' ∷ value else value

-- A cell: nothing, a text, or a number in the way `String` writes it.
pub data CsvCell : Type 0 where
  absent : CsvCell
  written printed : Text → CsvCell

-- `replaceAll('"', '""')`.
unfoldable pub double_quotes : Text → Text
double_quotes [] = []
double_quotes (c ∷ more) =
    let rest = double_quotes more in if c == quote then quote ∷ quote ∷ rest else c ∷ rest

unfoldable pub quoted : Text → Text
unfolding needs_quoting double_quotes
quoted value = if needs_quoting value then quote ∷ (double_quotes value ++ (quote ∷ [])) else value

unfoldable pub to_csv_cell : CsvCell → Text
unfolding neutralise quoted
to_csv_cell absent = []
to_csv_cell (written value) = quoted (neutralise value)
to_csv_cell (printed value) = quoted (neutralise value)

-- The cells behind the first, each behind a delimiter.
unfoldable pub joined : List CsvCell → Text
unfolding to_csv_cell
joined [] = []
joined (cell ∷ cells) = delimiter ∷ (to_csv_cell cell ++ joined cells)

unfoldable pub to_csv_row : List CsvCell → Text
unfolding to_csv_cell joined
to_csv_row [] = []
to_csv_row (cell ∷ cells) = to_csv_cell cell ++ joined cells

unfoldable pub csv_line : List CsvCell → Text
unfolding to_csv_row
csv_line cells = to_csv_row cells ++ (carriage_return ∷ line_feed ∷ [])
