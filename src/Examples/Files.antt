-- ===== src/Examples/Files.antt =====
-- A line with a name that is a formula, a correction, and a note with a quote and a semicolon.
use shape_and_flow.Base.{ℕ, ◌≡◌, ◌⊎◌, refl, [], ◌∷◌, map}
use shape_and_flow.Base.Text.{Text}
use shape_and_flow.Export.Csv.{absent, written, printed, csv_line, neutralise}
use shape_and_flow.Export.Reader.{read_line, shown, read_line-csv_line}
use shape_and_flow.Export.Harmless.{Runs, IsHarmless, neutralise-IsHarmless}

abbrev formula : Text
formula = b'=' ∷ b'A' ∷ b'1' ∷ []

abbrev correction : Text
correction = b'-' ∷ b'4' ∷ b'5' ∷ b',' ∷ b'0' ∷ b'0' ∷ []

abbrev note : Text
note = b'a' ∷ b';' ∷ b'"' ∷ 13 ∷ 10 ∷ []

defended : neutralise formula ≡ b'\'' ∷ formula
unfolding neutralise
defended = refl

kept : neutralise correction ≡ correction
unfolding neutralise
kept = refl

read_line-csv_line_example :
    read_line (csv_line (written formula ∷ printed correction ∷ absent ∷ written note ∷ []))
    ≡ map shown (written formula ∷ printed correction ∷ absent ∷ written note ∷ [])
read_line-csv_line_example =
    read_line-csv_line (written formula) (printed correction ∷ absent ∷ written note ∷ [])

neutralise-IsHarmless_example :
    IsHarmless (neutralise formula)
    × ((neutralise formula ≡ formula) ⊎ (neutralise formula ≡ b'\'' ∷ formula))
    × ((c : ℕ) (rest : Text) → formula ≡ c ∷ rest → ¬ Runs c → neutralise formula ≡ formula)
    × (neutralise (neutralise formula) ≡ neutralise formula)
neutralise-IsHarmless_example = neutralise-IsHarmless formula
