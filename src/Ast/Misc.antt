-- ===== src/Ast/Misc.antt =====
-- ast/misc.go: the statements of transactions, attached databases, pragmas and maintenance, over
-- the type of expressions.
use meyer.Base.{Bool, Bytes, Option}
use meyer.Ast.{Span, Ident, QualifiedName}

pub data TransactionType : Type 0 where
  txn_deferred txn_immediate txn_exclusive : TransactionType

pub record BeginStmt : Type 0 where
  pub span : Span
  pub type : TransactionType
  pub has_type : Bool
  pub has_transaction : Bool
  pub name : Option Ident

pub record CommitStmt : Type 0 where
  pub span : Span
  pub keyword : Bytes
  pub has_transaction : Bool
  pub name : Option Ident

pub record RollbackStmt : Type 0 where
  pub span : Span
  pub has_transaction : Bool
  pub name : Option Ident
  pub savepoint : Option Ident
  pub savepoint_keyword : Bool

pub record SavepointStmt : Type 0 where
  pub span : Span
  pub name : Ident

pub record ReleaseStmt : Type 0 where
  pub span : Span
  pub savepoint_keyword : Bool
  pub name : Ident

pub record AttachStmt (Expr : Type 0) : Type 0 where
  pub span : Span
  pub has_database : Bool
  pub file : Expr
  pub name : Expr
  pub key : Option Expr

pub record DetachStmt (Expr : Type 0) : Type 0 where
  pub span : Span
  pub has_database : Bool
  pub name : Expr

pub record PragmaStmt : Type 0 where
  pub span : Span
  pub name : QualifiedName
  pub value : Bytes
  pub paren : Bool
  pub has_value : Bool

pub record VacuumStmt (Expr : Type 0) : Type 0 where
  pub span : Span
  pub schema : Option Ident
  pub into : Option Expr

pub record AnalyzeStmt : Type 0 where
  pub span : Span
  pub name : Option QualifiedName

pub record ReindexStmt : Type 0 where
  pub span : Span
  pub name : Option QualifiedName

pub data MiscStmt (Expr : Type 0) : Type 0 where
  begin : BeginStmt → MiscStmt Expr
  commit : CommitStmt → MiscStmt Expr
  rollback : RollbackStmt → MiscStmt Expr
  savepoint : SavepointStmt → MiscStmt Expr
  release : ReleaseStmt → MiscStmt Expr
  attach : AttachStmt Expr → MiscStmt Expr
  detach : DetachStmt Expr → MiscStmt Expr
  pragma : PragmaStmt → MiscStmt Expr
  vacuum : VacuumStmt Expr → MiscStmt Expr
  analyze : AnalyzeStmt → MiscStmt Expr
  reindex : ReindexStmt → MiscStmt Expr
