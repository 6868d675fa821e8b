-- ===== src/Parser/WindowSafe.antt =====
-- parser/parse_select.go: sort lists and windows keep the invariant.
use meyer.Base.{Bool, ℕ}
use meyer.Ast.Expr.{FrameType}
use meyer.Parser.Rec.{Rec}
use meyer.Parser.Rules.{StaysRec, rec_rules}
use meyer.Parser.Stays.{Stays}
use meyer.Parser.Window.{
  parse_frame, parse_frame_bound, parse_frame_bounds, parse_frame_exclude, parse_frame_of,
  parse_nulls, parse_offset_bound, parse_order_by, parse_ordering_term, parse_sort_list,
  parse_sort_order, parse_unbounded, parse_window, parse_window_base, parse_window_defn,
  parse_window_defn_list,
}

module _ {n : ℕ} where
  pub Stays-parse_sort_order : Stays n parse_sort_order
  unfolding parse_sort_order
  Stays-parse_sort_order = search rec_rules depth 30

  pub Stays-parse_nulls : Stays n parse_nulls
  unfolding parse_nulls
  Stays-parse_nulls = search rec_rules depth 30

  pub Stays-parse_frame_exclude : Stays n parse_frame_exclude
  unfolding parse_frame_exclude
  Stays-parse_frame_exclude = search rec_rules depth 30

  pub Stays-parse_window_base : Stays n parse_window_base
  unfolding parse_window_base
  Stays-parse_window_base = search rec_rules depth 30

module _ {n : ℕ} (r : Rec) (h : StaysRec n r) where
  pub Stays-parse_ordering_term : Stays n (parse_ordering_term r)
  unfolding parse_ordering_term
  Stays-parse_ordering_term =
      search (rec_rules, h.expr, Stays-parse_sort_order, Stays-parse_nulls) depth 30

  pub Stays-parse_sort_list : Stays n (parse_sort_list r)
  unfolding parse_sort_list
  Stays-parse_sort_list = search (rec_rules, Stays-parse_ordering_term) depth 30

  pub Stays-parse_order_by : Stays n (parse_order_by r)
  unfolding parse_order_by
  Stays-parse_order_by = search (rec_rules, Stays-parse_sort_list) depth 30

  pub Stays-parse_unbounded : (a : Bool) (b : ℕ) → Stays n (parse_unbounded r a b)
  unfolding parse_unbounded
  Stays-parse_unbounded a b = search rec_rules depth 30

  pub Stays-parse_offset_bound : (a : ℕ) → Stays n (parse_offset_bound r a)
  unfolding parse_offset_bound
  Stays-parse_offset_bound a = search (rec_rules, h.expr) depth 30

  pub Stays-parse_frame_bound : (a : Bool) → Stays n (parse_frame_bound r a)
  unfolding parse_frame_bound
  Stays-parse_frame_bound a =
      search (rec_rules, Stays-parse_unbounded, Stays-parse_offset_bound) depth 30

  pub Stays-parse_frame_bounds : Stays n (parse_frame_bounds r)
  unfolding parse_frame_bounds
  Stays-parse_frame_bounds = search (rec_rules, Stays-parse_frame_bound) depth 30

  pub Stays-parse_frame_of : (a : FrameType) → Stays n (parse_frame_of r a)
  unfolding parse_frame_of
  Stays-parse_frame_of a =
      search (rec_rules, Stays-parse_frame_exclude, Stays-parse_frame_bounds) depth 30

  pub Stays-parse_frame : Stays n (parse_frame r)
  unfolding parse_frame
  Stays-parse_frame = search (rec_rules, Stays-parse_frame_of) depth 30

  pub Stays-parse_window : Stays n (parse_window r)
  unfolding parse_window
  Stays-parse_window =
      search (rec_rules, Stays-parse_window_base, Stays-parse_order_by, Stays-parse_frame) depth 30

  pub Stays-parse_window_defn : Stays n (parse_window_defn r)
  unfolding parse_window_defn
  Stays-parse_window_defn = search (rec_rules, Stays-parse_window) depth 30

  pub Stays-parse_window_defn_list : Stays n (parse_window_defn_list r)
  unfolding parse_window_defn_list
  Stays-parse_window_defn_list = search (rec_rules, Stays-parse_window_defn) depth 30
