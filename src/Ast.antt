-- ===== src/Ast.antt =====
-- ast/ast.go and ast/expr.go: spans and names, which every node of the syntax tree is built on.
pub mod Misc
pub mod Expr
pub mod Dml
pub mod Ddl
pub mod Stmts
use meyer.Base.{Bytes, Option, ℕ}

-- A byte extent of the input.
pub record Span : Type 0 where
  pub start : ℕ
  pub stop : ℕ

-- How an identifier is spelled; the source keeps the opening byte.
pub data QuoteStyle : Type 0 where
  quote_none quote_double quote_back quote_square quote_single : QuoteStyle

pub record Ident : Type 0 where
  pub span : Span
  pub name : Bytes
  pub raw : Bytes
  pub quote : QuoteStyle

pub record QualifiedName : Type 0 where
  pub span : Span
  pub schema : Option Ident
  pub name : Ident
