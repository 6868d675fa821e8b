-- ===== src/Parser/SqlTests.antt =====
-- The grammar on inputs that can be followed in the source.
use meyer.Base.{
  Bytes, Option, inl, inr, none, refl, some, ℕ, ◌++◌, ◌≡◌, ◌⊎◌, List, [], false, map, true, ◌<◌,
  ◌==◌, ◌∷◌, nat_eq,
}
use meyer.Keywords.{can_fallback, codes, is_idj, is_ids, is_name, is_id, is_plain_id}
use meyer.Lexer.Run.{run_lex}
use meyer.Ast.Expr.{
  Expr, Operator, between_expr, binary_expr, ident_expr, literal_expr, null_check_expr, op_add,
  op_and, op_eq, op_lt, op_minus, op_mul, op_not, op_or, op_ptr2, op_sub, test_not_null_words,
  unary_expr, SelectStmt, no_cores, no_exprs, no_with, select_stmt, vector_expr,
}
use meyer.Parser.State.{Outcome, done, failed, out_of_fuel, State, cur, cur_kind}
use meyer.Lexer.Lex.{lex}
use meyer.Parser.Safe.{Safe, Valid}
use meyer.Parser.Start.{lex-Tokens}
use meyer.Parser.Answer.{initial-Valid}
use meyer.Parser.From.{join_type_of, no_join_type}
use meyer.Parser.Knot.{parse_expr, parse_select}
use meyer.Parser.KnotSafe.{Safe-parse_expr}
use meyer.Parser.Precedence.{binds, parse_expr-maximal, token_prec}
use meyer.Parser.Grouped.{Grouped}
use meyer.Parser.Tree.{parse_expr-Grouped}
use meyer.Parser.Progress.{parse_expr-Moves}
use meyer.Parser.Compound.{Compounded, parse_select-compound}
use meyer.Parser.Joins.{join_bits, join_type_of-join_bits}
use meyer.Parser.Entry.{parse_expr_string, default_options, initial, parse_string}
use meyer.Ast.Stmts.{Explainable, command, plain, set_span}
use meyer.Ast.Ddl.{
  alter_table, create_table, create_trigger, create_virtual_table, dml, dml_delete, dml_insert,
  dml_select, dml_update,
}
use meyer.Token.{Kind, kind_eq}

-- An expression with parentheses round each operator.
abbrev op_code : Operator → Bytes
op_code op_or = codes " or "
op_code op_and = codes " and "
op_code op_eq = codes "="
op_code op_lt = codes "<"
op_code op_add = codes "+"
op_code op_sub = codes "-"
op_code op_mul = codes "*"
op_code op_ptr2 = codes "->>"
op_code op_not = codes "not "
op_code op_minus = codes "-"
op_code _ = codes "?"

abbrev brief : Expr → Bytes
brief (ident_expr n) = n.raw
brief (literal_expr n) = n.value
brief (binary_expr sp op x y) = codes "(" ++ brief x ++ op_code op ++ brief y ++ codes ")"
brief (unary_expr sp op x) = codes "(" ++ op_code op ++ brief x ++ codes ")"
brief (between_expr sp n x lo hi) =
    codes "(" ++ brief x ++ codes " btw " ++ brief lo ++ codes " to " ++ brief hi ++ codes ")"
brief (null_check_expr sp test_not_null_words x) = codes "(" ++ brief x ++ codes " notnull)"
brief _ = codes "?"

abbrev brief_of : Outcome Expr → Bytes ⊎ Option ℕ
brief_of (done x s) = inl (brief x)
brief_of (failed e) = inr e.offset
brief_of out_of_fuel = inr none

parse_expr_left : brief_of (parse_expr_string (codes "a-b*c-d")) ≡ inl (codes "((a-(b*c))-d)")
unfolding run_lex parse_expr_string can_fallback is_name is_idj is_ids
parse_expr_left = refl

-- The examples of the comment on `parseBetweenBound`.
parse_expr_between :
    brief_of (parse_expr_string (codes "x BETWEEN a AND b AND c"))
    ≡ inl (codes "((x btw a to b) and c)")
unfolding run_lex parse_expr_string can_fallback is_name is_idj is_ids
parse_expr_between = refl

parse_expr_between_or :
    brief_of (parse_expr_string (codes "x BETWEEN a OR b AND c")) ≡ inr (some 22)
unfolding run_lex parse_expr_string can_fallback is_name is_idj is_ids
parse_expr_between_or = refl

parse_expr_not_null :
    brief_of (parse_expr_string (codes "NOT x NOT NULL")) ≡ inl (codes "((not x) notnull)")
unfolding run_lex parse_expr_string can_fallback is_name is_idj is_ids
parse_expr_not_null = refl

abbrev state_of : {A : Type 0} → State → Outcome A → State
state_of s (done a t) = t
state_of s (failed e) = s
state_of s out_of_fuel = s

abbrev value_of : {A : Type 0} → A → Outcome A → A
value_of a (done b t) = b
value_of a (failed e) = a
value_of a out_of_fuel = a

abbrev at_start : Bytes → State
at_start z = initial z (lex z) default_options

-- A sum that a comparison ends: the operand of an operator of the precedence of "+" or above.
abbrev sum : State
sum = at_start (codes "a + b * 2 NOT IN (3)")

abbrev nothing_read : Expr
nothing_read = vector_expr (record { start = 0; stop = 0 }) no_exprs

sum-legal : (cur_kind sum == Kind.illegal) ≡ false
unfolding run_lex cur_kind cur
sum-legal = refl

sum-Valid : Valid sum
sum-Valid =
    initial-Valid (codes "a + b * 2 NOT IN (3)") (lex (codes "a + b * 2 NOT IN (3)"))
      default_options (lex-Tokens (codes "a + b * 2 NOT IN (3)")) sum-legal

sum-done :
    parse_expr 8 sum
    ≡ done (value_of nothing_read (parse_expr 8 sum)) (state_of sum (parse_expr 8 sum))
unfolding run_lex parse_expr can_fallback is_name is_idj is_ids
sum-done = refl

Safe-parse_expr_example : Safe (parse_expr 8)
Safe-parse_expr_example = Safe-parse_expr 8

parse_expr-maximal_example : binds 8 (state_of sum (parse_expr 8 sum)) ≡ false
parse_expr-maximal_example =
    parse_expr-maximal 8 sum (state_of sum (parse_expr 8 sum))
      (value_of nothing_read (parse_expr 8 sum)) sum-done

parse_expr-Grouped_example : Grouped 8 (value_of nothing_read (parse_expr 8 sum))
parse_expr-Grouped_example =
    parse_expr-Grouped 8 sum (state_of sum (parse_expr 8 sum))
      (value_of nothing_read (parse_expr 8 sum)) sum-done

parse_expr-Moves_example : 0 < (state_of sum (parse_expr 8 sum)).i
parse_expr-Moves_example =
    parse_expr-Moves 8 sum sum-Valid (value_of nothing_read (parse_expr 8 sum))
      (state_of sum (parse_expr 8 sum)) sum-done

-- The operator that the sum stops before binds at a lower precedence.
sum-binds : binds 4 (state_of sum (parse_expr 8 sum)) ≡ true
unfolding run_lex parse_expr can_fallback is_name is_idj is_ids binds token_prec
sum-binds = refl

abbrev compound : State
compound = at_start (codes "SELECT 1 UNION ALL VALUES (2), (3) EXCEPT SELECT * FROM t")

abbrev no_query : SelectStmt
no_query = select_stmt (record { start = 0; stop = 0 }) no_with no_cores []

compound-done :
    parse_select compound
    ≡ done (value_of no_query (parse_select compound)) (state_of compound (parse_select compound))
unfolding run_lex parse_select can_fallback is_name is_idj is_ids
compound-done = refl

parse_select-compound_example : Compounded (value_of no_query (parse_select compound))
parse_select-compound_example =
    parse_select-compound compound (state_of compound (parse_select compound))
      (value_of no_query (parse_select compound)) compound-done

join_type_of-join_bits_example :
    join_type_of (codes "natural" ∷ codes "LEFT" ∷ codes "JOIN" ∷ [])
    ≡ join_bits (codes "natural" ∷ codes "LEFT" ∷ codes "JOIN" ∷ [])
join_type_of-join_bits_example =
    join_type_of-join_bits (codes "natural" ∷ codes "LEFT" ∷ codes "JOIN" ∷ [])

-- A name that is CROSS in upper case, as its third letter U+017F is S there.
join_type_of_long_s :
    join_type_of (codes "NATURAL" ∷ (b'c' ∷ b'r' ∷ b'o' ∷ 197 ∷ 191 ∷ b's' ∷ []) ∷ [])
    ≡ record no_join_type { natural = true; inner = true; cross = true }
unfolding join_type_of
join_type_of_long_s = refl

-- The kind of each statement of a script.
abbrev kind_of : Explainable → ℕ
kind_of (plain (command (dml (dml_select n)))) = 1
kind_of (plain (command (dml (dml_insert n)))) = 2
kind_of (plain (command (dml (dml_update n)))) = 3
kind_of (plain (command (dml (dml_delete n)))) = 4
kind_of (plain (command (create_table n))) = 5
kind_of (plain (command (create_trigger n))) = 6
kind_of (plain (command (create_virtual_table n))) = 7
kind_of (plain (command (alter_table n))) = 8
kind_of _ = 0

abbrev kinds_of : Outcome (List Explainable) → List ℕ ⊎ Option ℕ
kinds_of (done ns s) = inl (map kind_of ns)
kinds_of (failed e) = inr e.offset
kinds_of out_of_fuel = inr none

parse_string_select :
    kinds_of (
      parse_string default_options (
        codes "WITH c(x) AS MATERIALIZED (VALUES (1)) SELECT DISTINCT a.*, count(*) "
        ++ codes "FILTER (WHERE x) OVER w FROM c LEFT JOIN (t, u) ON 1 WHERE x IN (SELECT 1) "
        ++ codes "GROUP BY 1 HAVING 2 WINDOW w AS (PARTITION BY x ROWS BETWEEN 1 PRECEDING "
        ++ codes "AND CURRENT ROW) ORDER BY 1 DESC NULLS LAST LIMIT 1, 2"))
    ≡ inl (1 ∷ [])
unfolding run_lex parse_string set_span can_fallback is_name is_idj is_ids is_id is_plain_id
parse_string_select = refl

parse_string_dml :
    kinds_of (
      parse_string default_options (
        codes "INSERT OR IGNORE INTO t(a) VALUES (1) ON CONFLICT (a) DO UPDATE SET a = 2 "
        ++ codes "ON CONFLICT DO NOTHING RETURNING *; UPDATE t NOT INDEXED SET (a, b) = (1, 2) "
        ++ codes "FROM u WHERE a; DELETE FROM t RETURNING a"))
    ≡ inl (2 ∷ 3 ∷ 4 ∷ [])
unfolding run_lex parse_string set_span can_fallback is_name is_idj is_ids is_id is_plain_id
parse_string_dml = refl

-- ORDER BY in a DELETE is for the option alone.
parse_string_delete_limit :
    kinds_of (parse_string default_options (codes "DELETE FROM t LIMIT 1")) ≡ inr (some 14)
unfolding run_lex parse_string set_span can_fallback is_name is_idj is_ids is_id is_plain_id
parse_string_delete_limit = refl

parse_string_ddl :
    kinds_of (
      parse_string default_options (
        codes "CREATE TABLE t(a INTEGER PRIMARY KEY ASC AUTOINCREMENT, b DEFAULT -1 "
        ++ codes "CONSTRAINT n NOT NULL, CONSTRAINT k CHECK (a) FOREIGN KEY (b) REFERENCES u "
        ++ codes "ON DELETE SET NULL) STRICT; CREATE TEMP TRIGGER g AFTER UPDATE OF a ON t "
        ++ codes "WHEN 1 BEGIN DELETE FROM t; SELECT 1; END; "
        ++ codes "CREATE VIRTUAL TABLE v USING m(a, (b, c), d); ALTER TABLE t ADD COLUMN z"))
    ≡ inl (5 ∷ 6 ∷ 7 ∷ 8 ∷ [])
unfolding run_lex parse_string set_span can_fallback is_name is_idj is_ids is_id is_plain_id
parse_string_ddl = refl

parse_string_primary_first :
    kinds_of (parse_string default_options (codes "CREATE TABLE t(PRIMARY KEY(a))")) ≡ inr (some 15)
unfolding run_lex parse_string set_span can_fallback is_name is_idj is_ids is_id is_plain_id
parse_string_primary_first = refl
