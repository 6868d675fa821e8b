-- ===== src/Ast/Dml.antt =====
-- ast/dml.go: INSERT, UPDATE and DELETE.
use meyer.Base.{Bool, List, Option}
use meyer.Ast.{Ident, QualifiedName, Span}
use meyer.Ast.Expr.{
  Expr, ExprOpt, LimitOpt, OrderingTerms, ResultColumns, SelectOpt, TableRefs, WithOpt,
}

pub data ConflictAction : Type 0 where
  conflict_default conflict_rollback conflict_abort conflict_fail : ConflictAction
  conflict_ignore conflict_replace : ConflictAction

pub record SetPair : Type 0 where
  pub span : Span
  pub columns : List Ident
  pub paren : Bool
  pub value : Expr

pub record Upsert : Type 0 where
  pub span : Span
  pub target : OrderingTerms
  pub target_where : ExprOpt
  pub do_nothing : Bool
  pub set : List SetPair
  pub filter : ExprOpt

pub record InsertStmt : Type 0 where
  pub span : Span
  pub with : WithOpt
  pub replace : Bool
  pub or_conflict : ConflictAction
  pub table : QualifiedName
  pub alias : Option Ident
  pub columns : List Ident
  pub select : SelectOpt
  pub default_values : Bool
  pub upserts : List Upsert
  pub returning : ResultColumns

pub record UpdateStmt : Type 0 where
  pub span : Span
  pub with : WithOpt
  pub or_conflict : ConflictAction
  pub table : QualifiedName
  pub alias : Option Ident
  pub indexed_by : Option Ident
  pub not_indexed : Bool
  pub set : List SetPair
  pub from : TableRefs
  pub filter : ExprOpt
  pub returning : ResultColumns
  pub order_by : OrderingTerms
  pub limit : LimitOpt

pub record DeleteStmt : Type 0 where
  pub span : Span
  pub with : WithOpt
  pub table : QualifiedName
  pub alias : Option Ident
  pub indexed_by : Option Ident
  pub not_indexed : Bool
  pub filter : ExprOpt
  pub returning : ResultColumns
  pub order_by : OrderingTerms
  pub limit : LimitOpt
