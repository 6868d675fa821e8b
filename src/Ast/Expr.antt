-- ===== src/Ast/Expr.antt =====
-- ast/expr.go and ast/select.go: the nodes of expressions and queries. A field that may be nil, or
-- that is a slice, of a node of the block has a type of its own there.
use meyer.Base.{Bool, Bytes, List, Option, ℕ}
use meyer.Ast.{Ident, QualifiedName, Span}

pub data LiteralKind : Type 0 where
  lit_null lit_integer lit_float lit_string lit_blob : LiteralKind
  lit_current_date lit_current_time lit_current_timestamp : LiteralKind

pub record Literal : Type 0 where
  pub span : Span
  pub kind : LiteralKind
  pub value : Bytes
  pub raw : Bytes

pub data ParamKind : Type 0 where
  param_anon param_number param_colon param_at param_dollar : ParamKind

pub record BindParam : Type 0 where
  pub span : Span
  pub kind : ParamKind
  pub number : ℕ
  pub name : Bytes
  pub raw : Bytes

pub data Operator : Type 0 where
  op_none op_or op_and op_eq op_ne op_lt op_le op_gt op_ge op_bit_and op_bit_or : Operator
  op_lshift op_rshift op_add op_sub op_mul op_div op_mod op_concat op_ptr op_ptr2 : Operator
  op_not op_bit_not op_plus op_minus : Operator

pub data NullTest : Type 0 where
  test_is_null test_not_null test_not_null_words : NullTest

pub record TypeName : Type 0 where
  pub span : Span
  pub name : Bytes
  pub args : List Bytes
  pub raw : Bytes

pub data Distinct : Type 0 where
  distinct_none distinct_distinct distinct_all : Distinct

pub record CompoundOp : Type 0 where
  pub span : Span
  pub op : Bytes
  pub all : Bool

-- The bitmask, a field for each bit.
pub record JoinType : Type 0 where
  pub inner : Bool
  pub cross : Bool
  pub natural : Bool
  pub left : Bool
  pub right : Bool
  pub outer : Bool
  pub comma : Bool

pub record JoinOperator : Type 0 where
  pub span : Span
  pub type : JoinType
  pub words : List Bytes

pub data SortOrder : Type 0 where
  sort_default sort_asc sort_desc : SortOrder

pub data NullsOrder : Type 0 where
  nulls_default nulls_first nulls_last : NullsOrder

pub data Materialized : Type 0 where
  materialized_any materialized_yes materialized_no : Materialized

pub data FrameType : Type 0 where
  frame_none frame_range frame_rows frame_groups : FrameType

pub data FrameBoundType : Type 0 where
  bound_unbounded_preceding bound_preceding bound_current_row : FrameBoundType
  bound_following bound_unbounded_following : FrameBoundType

pub data FrameExclude : Type 0 where
  exclude_none exclude_no_others exclude_current_row exclude_group exclude_ties : FrameExclude

mutual
  pub data Expr : Type 0 where
    ident_expr : Ident → Expr
    qualified_ref : Span → List Ident → Expr
    star_expr : Span → Option Ident → Expr
    literal_expr : Literal → Expr
    bind_param_expr : BindParam → Expr
    binary_expr : Span → Operator → Expr → Expr → Expr
    unary_expr : Span → Operator → Expr → Expr
    paren_expr : Span → Expr → Expr
    like_expr : Span → Ident → (not : Bool) → Expr → Expr → ExprOpt → Expr
    is_expr : Span → (not distinct : Bool) → Expr → Expr → Expr
    null_check_expr : Span → NullTest → Expr → Expr
    between_expr : Span → (not : Bool) → Expr → (lo hi : Expr) → Expr
    in_expr :
        Span
        → (not : Bool) → Expr
        → (parens : Bool) → (list : Exprs) → SelectOpt
        → (table : Option QualifiedName) → (args : Exprs) → (has_args : Bool) → Expr
    case_expr : Span → ExprOpt → Whens → ExprOpt → Expr
    cast_expr : Span → Expr → Option TypeName → Expr
    collate_expr : Span → Expr → Ident → Expr
    func_call :
        Span
        → Ident
        → (distinct all star : Bool) → (args : Exprs) → (order_by : OrderingTerms)
        → (filter : ExprOpt) → (over : WindowOpt) → Expr
    exists_expr : Span → SelectStmt → Expr
    subquery_expr : Span → SelectStmt → Expr
    vector_expr : Span → Exprs → Expr
    raise_expr : Span → (action : Bytes) → (message : ExprOpt) → Expr

  pub data ExprOpt : Type 0 where
    no_expr : ExprOpt
    an_expr : Expr → ExprOpt

  pub data Exprs : Type 0 where
    no_exprs : Exprs
    expr_cons : Expr → Exprs → Exprs

  -- `ValuesClause.Rows`
  pub data Rows : Type 0 where
    no_rows : Rows
    row_cons : Exprs → Rows → Rows

  pub data CaseWhen : Type 0 where
    case_when : Span → (when then_expr : Expr) → CaseWhen

  pub data Whens : Type 0 where
    no_whens : Whens
    when_cons : CaseWhen → Whens → Whens

  pub data SelectStmt : Type 0 where
    select_stmt : Span → WithOpt → Cores → List CompoundOp → SelectStmt

  pub data SelectOpt : Type 0 where
    no_select : SelectOpt
    a_select : SelectStmt → SelectOpt

  pub data SelectCore : Type 0 where
    select_query :
        Span
        → Distinct
        → ResultColumns
        → (from : TableRefs) → (where_expr : ExprOpt) → (group_by : Exprs) → (having : ExprOpt)
        → Windows
        → (order_by : OrderingTerms) → LimitOpt
        → SelectCore
    values_clause : Span → Rows → SelectCore

  pub data Cores : Type 0 where
    no_cores : Cores
    core_cons : SelectCore → Cores → Cores

  pub data ResultColumn : Type 0 where
    result_column : Span → Expr → (alias : Option Ident) → (has_as : Bool) → ResultColumn

  pub data ResultColumns : Type 0 where
    no_columns : ResultColumns
    column_cons : ResultColumn → ResultColumns → ResultColumns

  pub data TableRef : Type 0 where
    table_ref :
        Span
        → (join : Option JoinOperator) → (name : Option QualifiedName) → (args : Exprs)
        → (has_args : Bool) → SelectOpt
        → (list : TableRefs) → (alias : Option Ident) → (has_as : Bool)
        → (indexed_by : Option Ident) → (not_indexed : Bool) → (on : ExprOpt) → (using : List Ident)
        → TableRef

  pub data TableRefs : Type 0 where
    no_refs : TableRefs
    ref_cons : TableRef → TableRefs → TableRefs

  pub data OrderingTerm : Type 0 where
    ordering_term : Span → Expr → SortOrder → NullsOrder → OrderingTerm

  pub data OrderingTerms : Type 0 where
    no_terms : OrderingTerms
    term_cons : OrderingTerm → OrderingTerms → OrderingTerms

  pub data Limit : Type 0 where
    limit_clause : Span → (count : Expr) → (offset : ExprOpt) → (comma : Bool) → Limit

  pub data LimitOpt : Type 0 where
    no_limit : LimitOpt
    a_limit : Limit → LimitOpt

  pub data With : Type 0 where
    with_clause : Span → (recursive : Bool) → Ctes → With

  pub data WithOpt : Type 0 where
    no_with : WithOpt
    a_with : With → WithOpt

  pub data Cte : Type 0 where
    cte : Span → Ident → (columns : List Ident) → Materialized → SelectStmt → Cte

  pub data Ctes : Type 0 where
    no_ctes : Ctes
    cte_cons : Cte → Ctes → Ctes

  pub data FrameBound : Type 0 where
    frame_bound : Span → FrameBoundType → ExprOpt → FrameBound

  pub data BoundOpt : Type 0 where
    no_bound : BoundOpt
    a_bound : FrameBound → BoundOpt

  pub data WindowDef : Type 0 where
    window_def :
        Span
        → (name base : Option Ident) → (name_only : Bool) → (partition : Exprs)
        → (order_by : OrderingTerms) → FrameType
        → (start_bound end_bound : BoundOpt) → FrameExclude
        → WindowDef

  pub data WindowOpt : Type 0 where
    no_window : WindowOpt
    a_window : WindowDef → WindowOpt

  pub data Windows : Type 0 where
    no_windows : Windows
    window_cons : WindowDef → Windows → Windows

-- `Pos` and `End` of an expression
unfoldable pub expr_span : Expr → Span
expr_span (ident_expr n) = n.span
expr_span (qualified_ref sp parts) = sp
expr_span (star_expr sp table) = sp
expr_span (literal_expr n) = n.span
expr_span (bind_param_expr n) = n.span
expr_span (binary_expr sp op x y) = sp
expr_span (unary_expr sp op x) = sp
expr_span (paren_expr sp x) = sp
expr_span (like_expr sp op n x y escape) = sp
expr_span (is_expr sp n d x y) = sp
expr_span (null_check_expr sp test x) = sp
expr_span (between_expr sp n x lo hi) = sp
expr_span (in_expr sp n x ps list sel table args has) = sp
expr_span (case_expr sp operand ws other) = sp
expr_span (cast_expr sp x ty) = sp
expr_span (collate_expr sp x name) = sp
expr_span (func_call sp name d a st args order filter over) = sp
expr_span (exists_expr sp sel) = sp
expr_span (subquery_expr sp sel) = sp
expr_span (vector_expr sp list) = sp
expr_span (raise_expr sp action message) = sp
