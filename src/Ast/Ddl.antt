-- ===== src/Ast/Ddl.antt =====
-- ast/ddl.go: CREATE, DROP and ALTER; and the statements other than those of ast/misc.go.
use meyer.Base.{Bool, Bytes, List, Option}
use meyer.Ast.{Ident, QualifiedName, Span}
use meyer.Ast.Expr.{ExprOpt, OrderingTerms, SelectOpt, SelectStmt, SortOrder, TypeName}
use meyer.Ast.Dml.{ConflictAction, DeleteStmt, InsertStmt, UpdateStmt}

pub record IndexedColumn : Type 0 where
  pub span : Span
  pub name : Ident
  pub collation : Option Ident
  pub order : SortOrder

pub record TableOption : Type 0 where
  pub span : Span
  pub without : Bool
  pub name : Ident

pub data ForeignKeyAction : Type 0 where
  fk_no_action fk_set_null fk_set_default fk_cascade fk_restrict : ForeignKeyAction

pub record ForeignKeyArg : Type 0 where
  pub span : Span
  pub match : Option Ident
  pub event : Bytes
  pub action : ForeignKeyAction

pub record ForeignKeyClause : Type 0 where
  pub span : Span
  pub table : Ident
  pub columns : List IndexedColumn
  pub args : List ForeignKeyArg

pub record DeferClause : Type 0 where
  pub span : Span
  pub not : Bool
  pub initially_deferred : Bool
  pub has_initially : Bool

pub data ColumnConstraintKind : Type 0 where
  column_null column_not_null column_primary_key column_unique : ColumnConstraintKind
  column_check column_default column_collate column_references : ColumnConstraintKind
  column_generated column_deferrable : ColumnConstraintKind

pub record ColumnConstraint : Type 0 where
  pub span : Span
  pub name : Option Ident
  pub kind : ColumnConstraintKind
  pub on_conflict : ConflictAction
  pub order : SortOrder
  pub auto_increment : Bool
  pub expr : ExprOpt
  pub collation : Option Ident
  pub references : Option ForeignKeyClause
  pub generated_kind : Option Ident
  pub always_word : Bool
  pub deferrable : Option DeferClause

pub record ColumnDef : Type 0 where
  pub span : Span
  pub name : Ident
  pub type : Option TypeName
  pub constraints : List ColumnConstraint

pub data TableConstraintKind : Type 0 where
  table_primary_key table_unique table_check table_foreign_key : TableConstraintKind

pub record TableConstraint : Type 0 where
  pub span : Span
  pub name : Option Ident
  pub kind : TableConstraintKind
  pub columns : OrderingTerms
  pub auto_increment : Bool
  pub on_conflict : ConflictAction
  pub expr : ExprOpt
  pub fk_columns : List IndexedColumn
  pub references : Option ForeignKeyClause
  pub deferrable : Option DeferClause

pub record CreateTableStmt : Type 0 where
  pub span : Span
  pub temp : Bool
  pub if_not_exists : Bool
  pub name : QualifiedName
  pub columns : List ColumnDef
  pub constraints : List TableConstraint
  pub options : List TableOption
  pub select : SelectOpt

pub record CreateIndexStmt : Type 0 where
  pub span : Span
  pub unique : Bool
  pub if_not_exists : Bool
  pub name : QualifiedName
  pub table : Ident
  pub columns : OrderingTerms
  pub filter : ExprOpt

pub record CreateViewStmt : Type 0 where
  pub span : Span
  pub temp : Bool
  pub if_not_exists : Bool
  pub name : QualifiedName
  pub columns : List IndexedColumn
  pub select : SelectStmt

pub data TriggerTime : Type 0 where
  trigger_before trigger_after trigger_instead_of : TriggerTime

-- A query or a statement of ast/dml.go.
pub data Dml : Type 0 where
  dml_select : SelectStmt → Dml
  dml_insert : InsertStmt → Dml
  dml_update : UpdateStmt → Dml
  dml_delete : DeleteStmt → Dml

pub record CreateTriggerStmt : Type 0 where
  pub span : Span
  pub temp : Bool
  pub if_not_exists : Bool
  pub name : QualifiedName
  pub time : TriggerTime
  pub has_time : Bool
  pub event : Bytes
  pub update_of : List Ident
  pub table : QualifiedName
  pub for_each_row : Bool
  pub when : ExprOpt
  pub body : List Dml

pub record CreateVirtualTableStmt : Type 0 where
  pub span : Span
  pub if_not_exists : Bool
  pub name : QualifiedName
  pub module_name : Ident
  pub has_args : Bool
  pub args : List Bytes

pub data AlterAction : Type 0 where
  alter_rename_table alter_rename_column alter_add_column alter_drop_column : AlterAction
  alter_drop_constraint alter_drop_not_null alter_set_not_null : AlterAction
  alter_add_constraint_check : AlterAction

pub record AlterTableStmt : Type 0 where
  pub span : Span
  pub table : QualifiedName
  pub action : AlterAction
  pub column_keyword : Bool
  pub column : Option Ident
  pub new_name : Option Ident
  pub constraint_name : Option Ident
  pub column_def : Option ColumnDef
  pub expr : ExprOpt
  pub on_conflict : ConflictAction

-- `DropTableStmt`, `DropViewStmt`, `DropIndexStmt` and `DropTriggerStmt`, which have the same fields.
pub record DropStmt : Type 0 where
  pub span : Span
  pub if_exists : Bool
  pub name : QualifiedName

pub data Command : Type 0 where
  dml : Dml → Command
  create_table : CreateTableStmt → Command
  create_index : CreateIndexStmt → Command
  create_view : CreateViewStmt → Command
  create_trigger : CreateTriggerStmt → Command
  create_virtual_table : CreateVirtualTableStmt → Command
  drop_table drop_view drop_index drop_trigger : DropStmt → Command
  alter_table : AlterTableStmt → Command
