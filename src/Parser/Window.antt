-- ===== src/Parser/Window.antt =====
-- parser/parse_select.go: sort lists, and the windows of OVER and WINDOW.
use meyer.Base.{
  Bool, List, Option, [], false, if◌then◌else◌, none, some, true, ℕ, ◌==◌, ◌||◌, ◌∷◌, nat_eq,
}
use meyer.Token.{Kind, kind_eq}
use meyer.Ast.{Ident, Span}
use meyer.Ast.Expr.{
  BoundOpt, FrameBound, FrameExclude, FrameType, NullsOrder, OrderingTerm, OrderingTerms, SortOrder,
  WindowDef, Windows, a_bound, an_expr, bound_current_row, bound_following, bound_preceding,
  bound_unbounded_following, bound_unbounded_preceding, exclude_current_row, exclude_group,
  exclude_no_others, exclude_none, exclude_ties, frame_bound, frame_groups, frame_none, frame_range,
  frame_rows, no_bound, no_expr, no_terms, no_windows, nulls_default, nulls_first, nulls_last,
  ordering_term, sort_asc, sort_default, sort_desc, term_cons, window_cons, window_def,
}
use meyer.Parser.State.{Parser, cur_kind, gets, pure, ◌>>=◌, ◌>>◌}
use meyer.Parser.Look.{expect, span, syntax_error}
use meyer.Parser.Names.{expect_name}
use meyer.Parser.Combine.{comma_list, on}
use meyer.Parser.Rec.{Rec, clause, cur_pos, exprs_by, prec_lowest}

unfoldable pub term_list : List OrderingTerm → OrderingTerms
term_list [] = no_terms
term_list (x ∷ xs) = term_cons x (term_list xs)

unfoldable pub window_list : List WindowDef → Windows
window_list [] = no_windows
window_list (x ∷ xs) = window_cons x (window_list xs)

-- `sortorder`
unfoldable pub parse_sort_order : Parser SortOrder
unfolding on
parse_sort_order =
    on Kind.asc (λ t. pure sort_asc) (on Kind.desc (λ t. pure sort_desc) (pure sort_default))

-- `nulls`
unfoldable pub parse_nulls : Parser NullsOrder
unfolding clause on syntax_error
parse_nulls =
    clause nulls_default Kind.nulls
      (on Kind.first (λ t. pure nulls_first) (on Kind.last (λ t. pure nulls_last) syntax_error))

-- `parseFrameExclude`
unfoldable pub parse_frame_exclude : Parser FrameExclude
unfolding clause on expect syntax_error
parse_frame_exclude = clause exclude_none Kind.exclude (
    on Kind.no_kw (λ t. do expect Kind.others; pure exclude_no_others)
      (on Kind.current (λ t. do expect Kind.row; pure exclude_current_row)
        (on Kind.group (λ t. pure exclude_group)
          (on Kind.ties (λ t. pure exclude_ties) syntax_error))))

-- The frame and its bounds.
pub record Frame : Type 0 where
  pub frame : FrameType
  pub start_bound : BoundOpt
  pub end_bound : BoundOpt
  pub exclude : FrameExclude

abbrev pub no_frame : Frame
no_frame = record {
  frame = frame_none;
  start_bound = no_bound;
  end_bound = no_bound;
  exclude = exclude_none;
}

-- A lookahead that cannot be the name of an inherited window.
unfoldable pub starts_window_part : Kind → Bool
starts_window_part k =
    k == Kind.partition
    || k == Kind.order
    || k == Kind.range
    || k == Kind.rows
    || k == Kind.groups
    || k == Kind.rp

-- The base of `parseWindow`
unfoldable pub parse_window_base : Parser (Option Ident)
unfolding cur_kind starts_window_part expect_name
parse_window_base = do
  k ← gets cur_kind
  if starts_window_part k then pure none else (do base ← expect_name; pure (some base))

module _ (r : Rec) where
  -- One entry of `parseSortList`.
  unfoldable pub parse_ordering_term : Parser OrderingTerm
  unfolding cur_pos parse_sort_order parse_nulls span
  parse_ordering_term = do
    start ← gets cur_pos
    x ← r.parse_expr prec_lowest
    order ← parse_sort_order
    nulls_order ← parse_nulls
    sp ← gets (span start)
    pure (ordering_term sp x order nulls_order)

  -- `parseSortList`
  unfoldable pub parse_sort_list : Parser OrderingTerms
  unfolding comma_list parse_ordering_term term_list
  parse_sort_list = do ts ← comma_list parse_ordering_term; pure (term_list ts)

  -- `if p.at(token.ORDER) { p.advance(); p.expect(token.BY); … }`
  unfoldable pub parse_order_by : Parser OrderingTerms
  unfolding clause expect parse_sort_list
  parse_order_by = clause no_terms Kind.order (do expect Kind.by; parse_sort_list)

  -- The keyword that closes an UNBOUNDED bound.
  unfoldable pub parse_unbounded : Bool → ℕ → Parser FrameBound
  unfolding expect span
  parse_unbounded is_end start = do
    expect (if is_end then Kind.following else Kind.preceding)
    sp ← gets (span start)
    pure (
        frame_bound sp (if is_end then bound_unbounded_following else bound_unbounded_preceding)
          no_expr)

  -- The bound with an offset.
  unfoldable pub parse_offset_bound : ℕ → Parser FrameBound
  unfolding on syntax_error span
  parse_offset_bound start = do
    x ← r.parse_expr prec_lowest
    ty ←
        on Kind.preceding (λ t. pure bound_preceding)
          (on Kind.following (λ t. pure bound_following) syntax_error)
    sp ← gets (span start)
    pure (frame_bound sp ty (an_expr x))

  -- `parseFrameBound`
  unfoldable pub parse_frame_bound : Bool → Parser FrameBound
  unfolding cur_pos on parse_unbounded expect span parse_offset_bound
  parse_frame_bound is_end = do
    start ← gets cur_pos
    on Kind.unbounded (λ t. parse_unbounded is_end start)
        (on Kind.current
          (λ t. do
            expect Kind.row
            sp ← gets (span start)
            pure (frame_bound sp bound_current_row no_expr))
          (parse_offset_bound start))

  -- The bounds of `parseFrame`.
  unfoldable pub parse_frame_bounds : Parser (BoundOpt × BoundOpt)
  unfolding on parse_frame_bound expect
  parse_frame_bounds =
      on Kind.between
        (λ t. do
          lo ← parse_frame_bound false
          expect Kind.and
          hi ← parse_frame_bound true
          pure (a_bound lo, a_bound hi))
        (do lo ← parse_frame_bound false; pure (a_bound lo, no_bound))

  -- `parseFrame` behind its first keyword.
  unfoldable pub parse_frame_of : FrameType → Parser Frame
  unfolding parse_frame_bounds parse_frame_exclude
  parse_frame_of ty = do
    b ← parse_frame_bounds
    ex ← parse_frame_exclude
    pure (record { frame = ty; start_bound = b.0; end_bound = b.1; exclude = ex })

  -- `parseFrame`
  unfoldable pub parse_frame : Parser Frame
  unfolding on parse_frame_of
  parse_frame =
      on Kind.range (λ t. parse_frame_of frame_range)
        (on Kind.rows (λ t. parse_frame_of frame_rows)
          (on Kind.groups (λ t. parse_frame_of frame_groups) (pure no_frame)))

  -- `parseWindow`; the caller gives the name and the span.
  unfoldable pub parse_window : Parser (Option Ident → Span → WindowDef)
  unfolding parse_window_base exprs_by parse_order_by parse_frame
  parse_window = do
    base ← parse_window_base
    partition ← exprs_by r Kind.partition
    order ← parse_order_by
    f ← parse_frame
    pure (λ name sp.
        window_def sp name base false partition order f.frame f.start_bound f.end_bound f.exclude)

  -- One entry of `parseWindowDefnList`.
  unfoldable pub parse_window_defn : Parser WindowDef
  unfolding cur_pos expect_name expect parse_window span
  parse_window_defn = do
    start ← gets cur_pos
    name ← expect_name
    expect Kind.as_kw
    expect Kind.lp
    w ← parse_window
    expect Kind.rp
    sp ← gets (span start)
    pure (w (some name) sp)

  -- `parseWindowDefnList`
  unfoldable pub parse_window_defn_list : Parser Windows
  unfolding comma_list parse_window_defn window_list
  parse_window_defn_list = do ws ← comma_list parse_window_defn; pure (window_list ws)
