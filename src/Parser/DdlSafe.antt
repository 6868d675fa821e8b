-- ===== src/Parser/DdlSafe.antt =====
-- parser/parse_ddl.go and parser/parse_trigger.go: the statements keep the invariant, and their
-- loops end.
use meyer.Base.{
  Bool, Bytes, List, Option, arith, if◌then◌else◌, suc, zero, ℕ, ◌&&◌, ◌==◌, ◌≤◌, nat_eq,
}
use meyer.Token.{Kind, Token, kind_eq}
use meyer.Ast.{Ident, QualifiedName}
use meyer.Ast.Expr.{With}
use meyer.Parser.State.{Parser}
use meyer.Parser.Combine.{remaining}
use meyer.Parser.Rec.{Rec, cur_pos}
use meyer.Parser.Rules.{StaysRec, class_rules, eats_rules, stays_rules}
use meyer.Parser.Stays.{
  Eats, Eats-bind_tail, Stays, Stays-Eats, Stays-Safe, Stays-if, Stays-on_class_eats, Stays-zero,
}
use meyer.Parser.Safe.{Safe}
use meyer.Ast.Ddl.{CreateTableStmt, Dml}
use meyer.Parser.WindowSafe.{Stays-parse_sort_list}
use meyer.Parser.OperatorsSafe.{StaysRec-le}
use meyer.Parser.SelectSafe.{Stays-parse_with, Stays-parse_with_select}
use meyer.Parser.DmlSafe.{
  Stays-parse_delete, Stays-parse_insert, Stays-parse_update, Stays-trigger_delete,
  Stays-trigger_insert, Stays-trigger_update,
}
use meyer.Parser.ConstraintSafe.{
  Stays-paren_expr_of, Stays-parse_indexed_columns_opt, Stays-parse_on_conflict,
}
use meyer.Parser.TableSafe.{
  Stays-parse_column_and_constraint_list, Stays-parse_column_def, Stays-parse_table_options,
}
use meyer.Parser.Drop.{parse_drop, parse_if_exists, parse_if_not_exists}
use meyer.Parser.VirtualTable.{
  nest, parse_create_virtual_table, parse_vtab_args, parse_vtab_args_opt, vtab_args, vtab_comma,
  vtab_round,
}
use meyer.Parser.Alter.{
  alter_action, alter_add, alter_add_check, alter_add_col, alter_alter, alter_drop, alter_drop_col,
  alter_null, alter_rename, alter_rename_col, parse_alter_table,
}
use meyer.Parser.Trigger.{
  parse_create_trigger, parse_for_each, parse_trigger_cmd, parse_trigger_event, parse_trigger_time,
  trigger_cmds, trigger_round,
}
use meyer.Parser.Ddl.{
  create_table_as, create_table_columns, parse_create, parse_create_index, parse_create_other,
  parse_create_table, parse_create_view, parse_select_stmt_or_dml, parse_with_dml,
}

module _ {n : ℕ} where
  -- A round that goes on has consumed a token.
  Stays-vtab_comma :
      (a b : ℕ) (rest : ℕ → ℕ → ℕ → Parser (List Bytes))
      → ((d i j : ℕ) → Stays n (rest d i j))
      → Stays n (vtab_comma a b rest)
  unfolding vtab_comma
  Stays-vtab_comma a b rest hr = search stays_rules depth 24

  Stays-vtab_token :
      (depth a b : ℕ) (rest : ℕ → ℕ → ℕ → Parser (List Bytes)) (t : Token)
      → ((d i j : ℕ) → Stays n (rest d i j))
      → Stays n (
          if t.kind == Kind.comma && depth == 0
          then vtab_comma a b rest
          else rest (nest t.kind depth) a t.end)
  Stays-vtab_token depth a b rest t hr = Stays-if _ _ _ (Stays-vtab_comma a b rest hr) (hr _ _ _)

  Stays-vtab_round :
      (depth a b : ℕ) (rest : ℕ → ℕ → ℕ → Parser (List Bytes))
      → ((d i j : ℕ) → Stays n (rest d i j))
      → Stays (suc n) (vtab_round depth a b rest)
  unfolding vtab_round
  Stays-vtab_round depth a b rest hr = search (stays_rules, Stays-on_class_eats) depth 24

Stays-vtab_args : (k depth a b : ℕ) → Stays k (vtab_args k depth a b)
unfolding vtab_args
Stays-vtab_args zero depth a b = Stays-zero
Stays-vtab_args (suc k) depth a b = Stays-vtab_round depth a b (vtab_args k) (Stays-vtab_args k)

-- The loop over the arguments of a virtual table ends.
Safe-parse_vtab_args : Safe parse_vtab_args
unfolding parse_vtab_args
Safe-parse_vtab_args = record {
  run = λ s v. (Stays-vtab_args (remaining s) 0 (cur_pos s) (cur_pos s)).run s v (omega arith);
}

module _ {n : ℕ} where
  Stays-parse_vtab_args : Stays n parse_vtab_args
  Stays-parse_vtab_args = Stays-Safe Safe-parse_vtab_args

  pub Stays-parse_if_not_exists : Stays n parse_if_not_exists
  unfolding parse_if_not_exists
  Stays-parse_if_not_exists = search class_rules depth 30

  pub Stays-parse_if_exists : Stays n parse_if_exists
  unfolding parse_if_exists
  Stays-parse_if_exists = search class_rules depth 30

  pub Stays-parse_vtab_args_opt : Stays n parse_vtab_args_opt
  unfolding parse_vtab_args_opt
  Stays-parse_vtab_args_opt = search (class_rules, Stays-parse_vtab_args) depth 30

  pub Stays-parse_create_virtual_table : (a : ℕ) → Stays n (parse_create_virtual_table a)
  unfolding parse_create_virtual_table
  Stays-parse_create_virtual_table a =
      search (class_rules, Stays-parse_if_not_exists, Stays-parse_vtab_args_opt) depth 30

  pub Stays-parse_drop : Stays n parse_drop
  unfolding parse_drop
  Stays-parse_drop = search (class_rules, Stays-parse_if_exists) depth 30

  pub Stays-alter_rename_col : (a : QualifiedName) → Stays n (alter_rename_col a)
  unfolding alter_rename_col
  Stays-alter_rename_col a = search class_rules depth 30

  pub Stays-alter_rename : (a : QualifiedName) → Stays n (alter_rename a)
  unfolding alter_rename
  Stays-alter_rename a = search (class_rules, Stays-alter_rename_col) depth 30

  pub Stays-alter_drop_col : (a : QualifiedName) → Stays n (alter_drop_col a)
  unfolding alter_drop_col
  Stays-alter_drop_col a = search class_rules depth 30

  pub Stays-alter_drop : (a : QualifiedName) → Stays n (alter_drop a)
  unfolding alter_drop
  Stays-alter_drop a = search (class_rules, Stays-alter_drop_col) depth 30

  pub Stays-alter_null : Stays n alter_null
  unfolding alter_null
  Stays-alter_null = search (class_rules, Stays-parse_on_conflict) depth 30

  pub Stays-alter_alter : (a : QualifiedName) → Stays n (alter_alter a)
  unfolding alter_alter
  Stays-alter_alter a = search (class_rules, Stays-alter_null) depth 30

  pub Stays-parse_for_each : Stays n parse_for_each
  unfolding parse_for_each
  Stays-parse_for_each = search class_rules depth 30

  pub Stays-parse_trigger_time : Stays n parse_trigger_time
  unfolding parse_trigger_time
  Stays-parse_trigger_time = search class_rules depth 30

  pub Stays-parse_trigger_event : Stays n parse_trigger_event
  unfolding parse_trigger_event
  Stays-parse_trigger_event = search class_rules depth 30

module _ {n : ℕ} (r : Rec) (h : StaysRec n r) where
  pub Stays-create_table_as : (a : CreateTableStmt) (b : ℕ) → Stays n (create_table_as r a b)
  unfolding create_table_as
  Stays-create_table_as a b = search class_rules depth 30

  pub Stays-create_table_columns :
      (a : CreateTableStmt) (b : ℕ) → Stays n (create_table_columns r a b)
  unfolding create_table_columns
  Stays-create_table_columns a b =
      search (class_rules, Stays-parse_table_options, Stays-parse_column_and_constraint_list) depth
        30

  pub Stays-parse_create_table : (a : ℕ) (b : Bool) → Stays n (parse_create_table r a b)
  unfolding parse_create_table
  Stays-parse_create_table a b =
      search
        (class_rules, Stays-parse_if_not_exists, Stays-create_table_as, Stays-create_table_columns)
        depth 30

  pub Stays-parse_create_index : (a : ℕ) (b : Bool) → Stays n (parse_create_index r a b)
  unfolding parse_create_index
  Stays-parse_create_index a b =
      search (class_rules, Stays-parse_if_not_exists, Stays-parse_sort_list) depth 30

  pub Stays-parse_create_view : (a : ℕ) (b : Bool) → Stays n (parse_create_view r a b)
  unfolding parse_create_view
  Stays-parse_create_view a b =
      search (class_rules, Stays-parse_if_not_exists, Stays-parse_indexed_columns_opt) depth 30

  pub Stays-parse_trigger_cmd : Stays n (parse_trigger_cmd r)
  unfolding parse_trigger_cmd
  Stays-parse_trigger_cmd =
      search (class_rules, Stays-trigger_update, Stays-trigger_insert, Stays-trigger_delete) depth
        30

module _ {n : ℕ} (r : Rec) (h : StaysRec (suc n) r) where
  Eats-trigger_round : (rest : Parser (List Dml)) → Stays n rest → Eats n (trigger_round r rest)
  unfolding trigger_round
  Eats-trigger_round rest hr =
      search (eats_rules, Eats-bind_tail, stays_rules, Stays-parse_trigger_cmd) depth 24

module _ {n : ℕ} (r : Rec) (h : StaysRec n r) where
  Stays-trigger_cmds : (k : ℕ) → k ≤ n → Stays k (trigger_cmds r k)
  unfolding trigger_cmds
  Stays-trigger_cmds zero le = Stays-zero
  Stays-trigger_cmds (suc k) le = Stays-Eats (
      Eats-trigger_round r (StaysRec-le le h) (trigger_cmds r k)
        (Stays-trigger_cmds k (omega (arith, le))))

  -- The loop over the body of a trigger ends.
  Stays-trigger_body : Stays n (λ s. trigger_cmds r (remaining s) s)
  Stays-trigger_body = record {
    run = λ s v le. (Stays-trigger_cmds (remaining s) le).run s v (omega arith);
  }

  pub Stays-parse_create_trigger : (a : ℕ) (b : Bool) → Stays n (parse_create_trigger r a b)
  unfolding parse_create_trigger
  Stays-parse_create_trigger a b =
      search
        (
          class_rules, Stays-parse_if_not_exists, Stays-parse_for_each, Stays-parse_trigger_time,
          Stays-parse_trigger_event, Stays-trigger_body,
        )
        depth 30

  pub Stays-parse_create_other : (a : ℕ) → Stays n (parse_create_other r a)
  unfolding parse_create_other
  Stays-parse_create_other a =
      search (class_rules, Stays-parse_create_virtual_table, Stays-parse_create_index) depth 30

  pub Stays-parse_create : Stays n (parse_create r)
  unfolding parse_create
  Stays-parse_create =
      search
        (
          class_rules, Stays-parse_create_table, Stays-parse_create_view,
          Stays-parse_create_trigger, Stays-parse_create_other,
        )
        depth 30

  pub Stays-alter_add_check :
      (a : QualifiedName) (b : Option Ident) → Stays n (alter_add_check r a b)
  unfolding alter_add_check
  Stays-alter_add_check a b =
      search (class_rules, Stays-paren_expr_of, Stays-parse_on_conflict) depth 30

  pub Stays-alter_add_col : (a : QualifiedName) → Stays n (alter_add_col r a)
  unfolding alter_add_col
  Stays-alter_add_col a = search (class_rules, Stays-parse_column_def) depth 30

  pub Stays-alter_add : (a : QualifiedName) → Stays n (alter_add r a)
  unfolding alter_add
  Stays-alter_add a = search (class_rules, Stays-alter_add_check, Stays-alter_add_col) depth 30

  pub Stays-alter_action : (a : QualifiedName) → Stays n (alter_action r a)
  unfolding alter_action
  Stays-alter_action a =
      search (class_rules, Stays-alter_rename, Stays-alter_drop, Stays-alter_alter, Stays-alter_add)
        depth 30

  pub Stays-parse_alter_table : Stays n (parse_alter_table r)
  unfolding parse_alter_table
  Stays-parse_alter_table = search (class_rules, Stays-alter_action) depth 30

  Stays-parse_with_dml : (w : With) (start : ℕ) → Stays n (parse_with_dml r w start)
  unfolding parse_with_dml
  Stays-parse_with_dml w start =
      search
        (
          class_rules, Stays-parse_with_select, Stays-parse_insert, Stays-parse_update,
          Stays-parse_delete,
        )
        depth 24

  pub Stays-parse_select_stmt_or_dml : Stays n (parse_select_stmt_or_dml r)
  unfolding parse_select_stmt_or_dml
  Stays-parse_select_stmt_or_dml =
      search (class_rules, Stays-parse_with, Stays-parse_with_dml) depth 24
