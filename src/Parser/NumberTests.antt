-- ===== src/Parser/NumberTests.antt =====
-- Positions, numbers with separators and bind parameters on concrete inputs.
use meyer.Base.{Bytes, List, [], arith, false, refl, ◌∷◌, ◌≡◌, some}
use meyer.Keywords.{codes}
use meyer.Parser.State.{Error}
use meyer.Parser.Render.{error_string}
use meyer.Parser.Position.{Position, line_col, line_col-Position}
use meyer.Parser.Number.{dequote_from, digits, is_hex_number, misplaced}
use meyer.Parser.Separators.{Agrees, dequote_from-separated, separated, without_seps}
use meyer.Parser.Bind.{num_of, number_param, two63}
use meyer.Parser.Binds.{after, number_param-stable}
use meyer.Parser.BindRange.{Advances, Numbered, number_param-Advances}

abbrev lines : Bytes
lines = codes "SELECT 1;\n SELECT"

line_col_second : line_col lines 11 ≡ (2, 2)
unfolding line_col
line_col_second = refl

line_col-Position_example : Position lines 11 (line_col lines 11)
line_col-Position_example = line_col-Position lines 11 (omega arith)

abbrev million : Bytes
million = codes "1_000_000"

dequote_million :
    dequote_from (is_hex_number million) million 0 0 million ≡ digits (codes "1000000")
unfolding dequote_from is_hex_number
dequote_million = refl

-- The error shows the bytes as far as they are rewritten.
dequote_misplaced :
    dequote_from false (codes "1_2__3") 0 0 (codes "1_2__3") ≡ misplaced (codes "122__3")
unfolding dequote_from
dequote_misplaced = refl

dequote_from-separated_example :
    Agrees
      (separated false false million)
      (without_seps million)
      (dequote_from false million 0 0 million)
dequote_from-separated_example = dequote_from-separated false million

abbrev params : List Bytes
params = codes ":a" ∷ codes "?5" ∷ codes "?" ∷ codes "@a" ∷ []

after-params : (after params 0 []).0 ≡ 7
unfolding after number_param
after-params = refl

-- Past the largest int, `nVar` is the least one.
number_param_overflow :
    (number_param (codes "?") (number_param (codes "?9223372036854775807") 0 []).n_var []).number
    ≡ two63
unfolding number_param
number_param_overflow = refl

number_param-stable_example :
    (let r = number_param (codes ":a") 0 [] in
      let s = after params r.n_var r.var_nums in
      number_param (codes ":a") s.0 s.1 ≡ record { number = r.number; n_var = s.0; var_nums = s.1 })
number_param-stable_example = number_param-stable (codes ":a") params 0 [] refl

none-Numbered : Numbered 0 []
unfolding num_of
none-Numbered = record {
  small = omega arith;
  low = λ a k e. cc e;
  high = λ a k e. cc e;
  distinct = λ a b k e f. cc e;
}

number_param-Advances_example : Advances 0 (number_param (codes ":a") 0 [])
number_param-Advances_example = number_param-Advances (codes ":a") 0 [] none-Numbered (omega arith)

abbrev late_error : Error
late_error = record { message = codes "incomplete input"; offset = some 17; sql = lines }

error_string-late_error : error_string late_error ≡ codes "2:8: incomplete input"
unfolding error_string
error_string-late_error = refl
