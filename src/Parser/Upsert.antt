-- ===== src/Parser/Upsert.antt =====
-- parser/parse_dml.go: SET, RETURNING and ON CONFLICT.
use meyer.Base.{Bool, List, [], false, if◌then◌else◌, suc, true, zero, ℕ, ◌∷◌}
use meyer.Token.{Kind, Token}
use meyer.Ast.{Ident}
use meyer.Ast.Expr.{ExprOpt, OrderingTerms, ResultColumns, no_columns, no_expr, no_terms}
use meyer.Ast.Dml.{SetPair, Upsert}
use meyer.Parser.State.{Parser, gets, out_of_fuel, pure, ◌>>=◌, ◌>>◌}
use meyer.Parser.Look.{expect, span}
use meyer.Parser.Names.{expect_name}
use meyer.Parser.Combine.{comma_list, on, remaining}
use meyer.Parser.Rec.{Rec, clause, cur_pos, expr_after, parse_id_list, prec_lowest}
use meyer.Parser.Window.{parse_sort_list}
use meyer.Parser.Select.{parse_result_columns}

-- The columns of a pair, and whether they are in parentheses.
unfoldable pub parse_set_columns : Parser (List Ident × Bool)
unfolding on parse_id_list expect expect_name
parse_set_columns =
    on Kind.lp (λ t. do names ← parse_id_list; expect Kind.rp; pure (names, true))
      (do n ← expect_name; pure (n ∷ [], false))

module _ (r : Rec) where
  -- One entry of `parseSetList`.
  unfoldable pub parse_set_pair : Parser SetPair
  unfolding cur_pos parse_set_columns expect span
  parse_set_pair = do
    start ← gets cur_pos
    cols ← parse_set_columns
    expect Kind.eq
    x ← r.parse_expr prec_lowest
    sp ← gets (span start)
    pure (record { span = sp; columns = cols.0; paren = cols.1; value = x })

  -- `parseSetList`
  unfoldable pub parse_set_list : Parser (List SetPair)
  unfolding comma_list parse_set_pair
  parse_set_list = comma_list parse_set_pair

  -- `parseReturning`
  unfoldable pub parse_returning : Parser ResultColumns
  unfolding clause parse_result_columns
  parse_returning = clause no_columns Kind.returning (parse_result_columns r)

  -- The conflict target: its terms, its WHERE, and whether there is one.
  unfoldable pub parse_upsert_target : Parser (OrderingTerms × ExprOpt × Bool)
  unfolding clause parse_sort_list expect expr_after
  parse_upsert_target =
      clause (no_terms, no_expr, false) Kind.lp
        (do
          ts ← parse_sort_list r
          expect Kind.rp
          x ← expr_after r Kind.where_kw prec_lowest
          pure (ts, x, true))

  -- What follows DO: DO NOTHING, the pairs of SET and their WHERE.
  unfoldable pub parse_upsert_action : Parser (Bool × List SetPair × ExprOpt)
  unfolding on expect parse_set_list expr_after
  parse_upsert_action =
      on Kind.nothing (λ t. pure (true, [], no_expr))
        (do
          expect Kind.update
          expect Kind.set
          pairs ← parse_set_list
          x ← expr_after r Kind.where_kw prec_lowest
          pure (false, pairs, x))

  -- One clause of `parseUpsert` behind its ON, and whether it has a target.
  unfoldable pub parse_upsert_clause : Token → Parser (Upsert × Bool)
  unfolding expect parse_upsert_target parse_upsert_action span
  parse_upsert_clause t = do
    expect Kind.conflict
    target ← parse_upsert_target
    expect Kind.do_kw
    action ← parse_upsert_action
    sp ← gets (span t.pos)
    pure (
      record {
        span = sp;
        target = target.0;
        target_where = target.1;
        do_nothing = action.0;
        set = action.1;
        filter = action.2;
      },
      target.2,
    )

  -- One round of `parseUpsert`, with the rest of the loop: an untargeted clause ends it.
  unfoldable pub upsert_round : Parser (List Upsert) → Parser (List Upsert)
  unfolding on parse_upsert_clause
  upsert_round rest =
      on Kind.on
        (λ t. do u ← parse_upsert_clause t; us ← if u.1 then rest else pure []; pure (u.0 ∷ us))
        (pure [])

  -- The loop of `parseUpsert`, with fuel for the tokens that are left.
  unfoldable pub upsert_clauses : ℕ → Parser (List Upsert)
  unfolding upsert_round
  upsert_clauses zero = λ s. out_of_fuel
  upsert_clauses (suc fuel) = upsert_round (upsert_clauses fuel)

  -- `parseUpsert`
  unfoldable pub parse_upsert : Parser (List Upsert × ResultColumns)
  unfolding upsert_clauses parse_returning
  parse_upsert = do
    us ← λ s. upsert_clauses (remaining s) s
    cols ← parse_returning
    pure (us, cols)
