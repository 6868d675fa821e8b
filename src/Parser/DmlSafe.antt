-- ===== src/Parser/DmlSafe.antt =====
-- parser/parse_dml.go: the statements keep the invariant, and the loop over ON CONFLICT ends.
use meyer.Base.{List, arith, suc, zero, ℕ, ◌≤◌}
use meyer.Token.{Token}
use meyer.Ast.Expr.{WithOpt}
use meyer.Parser.State.{Parser}
use meyer.Parser.Combine.{on, remaining}
use meyer.Parser.Rec.{Rec}
use meyer.Parser.Rules.{StaysRec, rec_rules, stays_rules}
use meyer.Parser.Stays.{Stays, Stays-bind, Stays-on_class_eats, Stays-pure, Stays-zero}
use meyer.Ast.Dml.{Upsert}
use meyer.Parser.WindowSafe.{Stays-parse_order_by, Stays-parse_sort_list}
use meyer.Parser.FromSafe.{Stays-parse_from_list, Stays-parse_indexed_opt}
use meyer.Parser.SelectSafe.{Stays-parse_limit, Stays-parse_result_columns}
use meyer.Parser.Upsert.{
  parse_returning, parse_set_columns, parse_set_list, parse_set_pair, parse_upsert,
  parse_upsert_action, parse_upsert_clause, parse_upsert_target, upsert_clauses, upsert_round,
}
use meyer.Parser.Dml.{
  InsertTarget, delete_core, insert_defaults, insert_select, insert_target, parse_delete,
  parse_id_list_opt, parse_insert, parse_insert_cmd, parse_or_conflict, parse_resolve_type,
  parse_update, parse_update_delete_limit, parse_where_opt_ret, trigger_delete, trigger_insert,
  trigger_update, update_core,
}
use meyer.Parser.OperatorsSafe.{StaysRec-le}

module _ {n : ℕ} where
  pub Stays-parse_resolve_type : Stays n parse_resolve_type
  unfolding parse_resolve_type
  Stays-parse_resolve_type = search rec_rules depth 30

  pub Stays-parse_or_conflict : Stays n parse_or_conflict
  unfolding parse_or_conflict
  Stays-parse_or_conflict = search (rec_rules, Stays-parse_resolve_type) depth 30

  pub Stays-parse_id_list_opt : Stays n parse_id_list_opt
  unfolding parse_id_list_opt
  Stays-parse_id_list_opt = search rec_rules depth 30

  pub Stays-parse_insert_cmd : Stays n parse_insert_cmd
  unfolding parse_insert_cmd
  Stays-parse_insert_cmd = search (rec_rules, Stays-parse_or_conflict) depth 30

  pub Stays-insert_target : Stays n insert_target
  unfolding insert_target
  Stays-insert_target = search (rec_rules, Stays-parse_id_list_opt, Stays-parse_insert_cmd) depth 30

  pub Stays-parse_set_columns : Stays n parse_set_columns
  unfolding parse_set_columns
  Stays-parse_set_columns = search rec_rules depth 30

  pub Stays-delete_core : Stays n delete_core
  unfolding delete_core
  Stays-delete_core = search (rec_rules, Stays-parse_indexed_opt) depth 30

module _ {n : ℕ} (r : Rec) (h : StaysRec n r) where
  pub Stays-parse_set_pair : Stays n (parse_set_pair r)
  unfolding parse_set_pair
  Stays-parse_set_pair = search (rec_rules, h.expr, Stays-parse_set_columns) depth 30

  pub Stays-parse_set_list : Stays n (parse_set_list r)
  unfolding parse_set_list
  Stays-parse_set_list = search (rec_rules, Stays-parse_set_pair) depth 30

  pub Stays-parse_returning : Stays n (parse_returning r)
  unfolding parse_returning
  Stays-parse_returning = search (rec_rules, Stays-parse_result_columns) depth 30

  pub Stays-parse_upsert_target : Stays n (parse_upsert_target r)
  unfolding parse_upsert_target
  Stays-parse_upsert_target = search (rec_rules, Stays-parse_sort_list) depth 30

  pub Stays-parse_upsert_action : Stays n (parse_upsert_action r)
  unfolding parse_upsert_action
  Stays-parse_upsert_action = search (rec_rules, Stays-parse_set_list) depth 30

  pub Stays-parse_upsert_clause : (a : Token) → Stays n (parse_upsert_clause r a)
  unfolding parse_upsert_clause
  Stays-parse_upsert_clause a =
      search (rec_rules, Stays-parse_upsert_target, Stays-parse_upsert_action) depth 30

  -- A round that goes on has consumed a token.
  Stays-upsert_round :
      (rest : Parser (List Upsert)) → Stays n rest → Stays (suc n) (upsert_round r rest)
  unfolding upsert_round on
  Stays-upsert_round rest hr =
      search (stays_rules, Stays-on_class_eats, Stays-parse_upsert_clause) depth 24

module _ {n : ℕ} (r : Rec) (h : StaysRec n r) where
  Stays-upsert_clauses : (k : ℕ) → k ≤ n → Stays k (upsert_clauses r k)
  unfolding upsert_clauses
  Stays-upsert_clauses zero le = Stays-zero
  Stays-upsert_clauses (suc k) le =
      Stays-upsert_round r (StaysRec-le (omega (arith, le)) h) (upsert_clauses r k)
        (Stays-upsert_clauses k (omega (arith, le)))

  -- The loop over ON CONFLICT ends: its fuel is enough.
  Stays-upserts : Stays n (λ s. upsert_clauses r (remaining s) s)
  Stays-upserts = record {
    run = λ s v le. (Stays-upsert_clauses (remaining s) le).run s v (omega arith);
  }

  pub Stays-parse_upsert : Stays n (parse_upsert r)
  unfolding parse_upsert
  Stays-parse_upsert =
      Stays-bind _ _ Stays-upserts
        λ us. Stays-bind _ _ (Stays-parse_returning r h) λ cols. Stays-pure (us, cols)

  pub Stays-insert_defaults :
      (a : WithOpt) (b : InsertTarget) (c : ℕ) → Stays n (insert_defaults r a b c)
  unfolding insert_defaults
  Stays-insert_defaults a b c = search (rec_rules, Stays-parse_returning) depth 30

  pub Stays-insert_select :
      (a : WithOpt) (b : InsertTarget) (c : ℕ) → Stays n (insert_select r a b c)
  unfolding insert_select
  Stays-insert_select a b c = search (rec_rules, Stays-parse_upsert) depth 30

  pub Stays-parse_insert : (a : WithOpt) (b : ℕ) → Stays n (parse_insert r a b)
  unfolding parse_insert
  Stays-parse_insert a b =
      search (rec_rules, Stays-insert_target, Stays-insert_defaults, Stays-insert_select) depth 30

  pub Stays-parse_where_opt_ret : Stays n (parse_where_opt_ret r)
  unfolding parse_where_opt_ret
  Stays-parse_where_opt_ret = search (rec_rules, Stays-parse_returning) depth 30

  pub Stays-parse_update_delete_limit : Stays n (parse_update_delete_limit r)
  unfolding parse_update_delete_limit
  Stays-parse_update_delete_limit =
      search (rec_rules, Stays-parse_order_by, Stays-parse_limit) depth 30

  pub Stays-update_core : Stays n (update_core r)
  unfolding update_core
  Stays-update_core =
      search
        (
          rec_rules, Stays-parse_or_conflict, Stays-parse_set_list, Stays-parse_from_list,
          Stays-parse_indexed_opt,
        )
        depth 30

  pub Stays-parse_update : (a : WithOpt) (b : ℕ) → Stays n (parse_update r a b)
  unfolding parse_update
  Stays-parse_update a b =
      search
        (rec_rules, Stays-parse_where_opt_ret, Stays-parse_update_delete_limit, Stays-update_core)
        depth 30

  pub Stays-parse_delete : (a : WithOpt) (b : ℕ) → Stays n (parse_delete r a b)
  unfolding parse_delete
  Stays-parse_delete a b =
      search
        (rec_rules, Stays-delete_core, Stays-parse_where_opt_ret, Stays-parse_update_delete_limit)
        depth 30

  pub Stays-trigger_update : (a : ℕ) → Stays n (trigger_update r a)
  unfolding trigger_update
  Stays-trigger_update a = search (rec_rules, Stays-update_core) depth 30

  pub Stays-trigger_insert : (a : ℕ) → Stays n (trigger_insert r a)
  unfolding trigger_insert
  Stays-trigger_insert a = search (rec_rules, Stays-insert_target, Stays-insert_select) depth 30

  pub Stays-trigger_delete : (a : ℕ) → Stays n (trigger_delete r a)
  unfolding trigger_delete
  Stays-trigger_delete a = search (rec_rules, Stays-delete_core) depth 30
