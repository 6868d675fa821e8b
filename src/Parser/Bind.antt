-- ===== src/Parser/Bind.antt =====
-- parser/parse_expr.go: `bindParam`, which numbers the bind parameters. A Go int is the number of
-- its 64 bits.
use Prim.{Unit, tt}
use meyer.Base.{
  Bool, Bytes, List, Option, [], drop, get_or, if◌then◌else◌, leb, length, ltb, none, some, ℕ, ◌%◌,
  ◌&&◌, ◌*◌, ◌+◌, ◌-◌, ◌==◌, ◌∷◌, nat_eq,
}
use meyer.Token.{Token, kind_eq}
use meyer.Keywords.Find.{bytes_beq}
use meyer.Ast.Expr.{
  BindParam, ParamKind, param_anon, param_at, param_colon, param_dollar, param_number,
}
use meyer.Parser.State.{Parser, defer_, done, pure, ◌>>=◌, ◌>>◌}
use meyer.Parser.Look.{near, span_of}
use meyer.Parser.Names.{src_text}

abbrev pub two63 : ℕ
two63 = 9223372036854775808

abbrev pub two64 : ℕ
two64 = 18446744073709551616

-- `a > b` on ints.
unfoldable pub int_gt : ℕ → ℕ → Bool
int_gt a b = ltb ((b + two63) % two64) ((a + two63) % two64)

-- `strconv.Atoi` on the digits of a "?NNN": no value past the largest int, none for no digits.
unfoldable pub digits_value : ℕ → Bytes → Option ℕ
digits_value acc [] = some acc
digits_value acc (c ∷ z) =
    if leb b'0' c && leb c b'9' then digits_value (acc * 10 + (c - b'0')) z else none

unfoldable pub in_int : Option ℕ → Option ℕ
in_int none = none
in_int (some v) = if ltb v two63 then some v else none

unfoldable pub atoi : Bytes → Option ℕ
unfolding digits_value in_int
atoi [] = none
atoi (c ∷ z) = in_int (digits_value 0 (c ∷ z))

-- `p.varNums[raw]`
unfoldable pub num_of : Bytes → List (Bytes × ℕ) → Option ℕ
num_of raw [] = none
num_of raw ((name, k) ∷ vars) = if bytes_beq raw name then some k else num_of raw vars

-- A parameter's number with `nVar` and `varNums` behind it.
pub record Numbering : Type 0 where
  pub number : ℕ
  pub n_var : ℕ
  pub var_nums : List (Bytes × ℕ)

-- `?NNN`, by what `Atoi` makes of it.
unfoldable pub number_explicit : Option ℕ → ℕ → List (Bytes × ℕ) → Numbering
unfolding int_gt
number_explicit none n vars = record { number = 0; n_var = n; var_nums = vars }
number_explicit (some v) n vars = record {
  number = v;
  n_var = if int_gt v n then v else n;
  var_nums = vars;
}

-- A named parameter, by what the map has for it.
unfoldable pub number_named : Option ℕ → Bytes → ℕ → List (Bytes × ℕ) → Numbering
number_named none raw n vars =
    let k = (n + 1) % two64 in record { number = k; n_var = k; var_nums = (raw, k) ∷ vars }
number_named (some v) raw n vars = record { number = v; n_var = n; var_nums = vars }

unfoldable pub number_param : Bytes → ℕ → List (Bytes × ℕ) → Numbering
unfolding atoi number_explicit num_of number_named
number_param raw n vars =
    if bytes_beq raw (b'?' ∷ [])
    then (let k = (n + 1) % two64 in record { number = k; n_var = k; var_nums = vars })
    else if get_or raw 0 0 == b'?'
    then number_explicit (atoi (drop 1 raw)) n vars
    else number_named (num_of raw vars) raw n vars

unfoldable pub param_kind : Bytes → ParamKind
param_kind raw =
    if bytes_beq raw (b'?' ∷ [])
    then param_anon
    else let c = get_or raw 0 0 in
      if c == b'?'
      then param_number
      else if c == b':'
      then param_colon
      else if c == b'@'
      then param_at
      else param_dollar

-- A name is kept for the parameters that have one.
unfoldable pub param_name : Bytes → Bytes
param_name raw = if get_or raw 0 0 == b'?' then [] else drop 1 raw

-- "#NNN", which a grammar action rejects.
unfoldable pub is_register : Bytes → Bool
is_register raw =
    leb 2 (length raw)
    && get_or raw 0 0 == b'#'
    && leb b'0' (get_or raw 1 0)
    && leb (get_or raw 1 0) b'9'

unfoldable pub check_register : Bytes → ℕ → Parser (Unit {0})
unfolding is_register defer_ near
check_register raw pos s = if is_register raw then defer_ (near raw) pos s else done tt s

-- The update of `nVar` and `varNums`.
unfoldable pub assign_number : Bytes → Parser ℕ
unfolding number_param
assign_number raw s =
    let r = number_param raw s.n_var s.var_nums in
    done r.number (record s { n_var = r.n_var; var_nums = r.var_nums })

unfoldable pub param_of : Token → Bytes → ℕ → BindParam
unfolding param_kind param_name
param_of t raw n = record {
  span = span_of t;
  kind = param_kind raw;
  number = n;
  name = param_name raw;
  raw = raw;
}

-- `bindParam`
unfoldable pub bind_param : Token → Parser BindParam
unfolding check_register assign_number param_of
bind_param t = do
  raw ← src_text t
  check_register raw t.pos
  n ← assign_number raw
  pure (param_of t raw n)
