-- ===== src/Parser/Grouped.antt =====
-- parser/parse_expr.go: what the precedences of the operators say about the tree of an expression.
use meyer.Base.{
  Bool, if◌then◌else◌, ltb, true, false, ℕ, ◌≡◌, ◌≤◌, ◌+◌, ltb→le, arith, ◌==◌, nat_eq,
}
use meyer.Ast.Expr.{
  Expr, Operator, NullTest, an_expr, between_expr, binary_expr, collate_expr, in_expr, is_expr,
  like_expr, no_expr, null_check_expr, op_add, op_and, op_bit_and, op_bit_or, op_concat, op_div,
  op_eq, op_ge, op_gt, op_le, op_lshift, op_lt, op_mod, op_mul, op_ne, op_not, op_or, op_ptr,
  op_ptr2, op_rshift, op_sub, test_not_null_words, unary_expr,
}
use meyer.Token.{Kind, kind_eq}
use meyer.Parser.Rec.{
  peek_kind, prec_add, prec_and, prec_bitwise, prec_collate, prec_compare, prec_concat, prec_mul,
  prec_not, prec_or, prec_relational, prec_unary,
}
use meyer.Parser.Term.{InfixOp, infix_op}
use meyer.Parser.Operators.{is_infix, not_prec}
use meyer.Parser.State.{State, cur_kind}
use meyer.Parser.Precedence.{compares, token_prec}

-- The precedence of a binary operator.
unfoldable pub op_prec : Operator → ℕ
op_prec op_or = prec_or
op_prec op_and = prec_and
op_prec op_eq = prec_compare
op_prec op_ne = prec_compare
op_prec op_lt = prec_relational
op_prec op_le = prec_relational
op_prec op_gt = prec_relational
op_prec op_ge = prec_relational
op_prec op_bit_and = prec_bitwise
op_prec op_bit_or = prec_bitwise
op_prec op_lshift = prec_bitwise
op_prec op_rshift = prec_bitwise
op_prec op_add = prec_add
op_prec op_sub = prec_add
op_prec op_mul = prec_mul
op_prec op_div = prec_mul
op_prec op_mod = prec_mul
op_prec op_concat = prec_concat
op_prec op_ptr = prec_concat
op_prec op_ptr2 = prec_concat
op_prec _ = 0

-- The precedence of a prefix operator.
unfoldable pub prefix_prec : Operator → ℕ
prefix_prec op_not = prec_not
prefix_prec _ = prec_unary

unfoldable pub lesser : ℕ → ℕ → ℕ
lesser p q = if ltb p q then p else q

-- The precedence of the weakest operator that the expression ends in the operand of: the
-- expression can be the left operand of an operator of that precedence or below.
unfoldable pub room : Expr → ℕ
unfolding op_prec prefix_prec lesser
room (binary_expr sp op x y) = lesser (op_prec op) (room y)
room (unary_expr sp op x) = lesser (prefix_prec op) (room x)
room (like_expr sp op neg x y no_expr) = lesser prec_compare (room y)
room (like_expr sp op neg x y (an_expr z)) = lesser prec_compare (room z)
room (is_expr sp neg distinct x y) = lesser prec_compare (room y)
room (between_expr sp neg x lo hi) = lesser prec_compare (room hi)
room _ = prec_unary

-- The precedence of a comparison as the operator of a left operand.
unfoldable pub left_prec : Bool → ℕ
left_prec neg = if neg then prec_not else prec_compare

unfoldable pub null_prec : NullTest → ℕ
null_prec test_not_null_words = prec_not
null_prec _ = prec_compare

-- The operators of the expression have precedence `min` or above, a left operand can stand before
-- its operator, and a right operand has operators that bind more tightly than its own.
unfoldable pub Grouped : ℕ → Expr → Type 0
unfolding op_prec prefix_prec room left_prec null_prec
Grouped min (binary_expr sp op x y) =
    (min ≤ op_prec op) × (op_prec op ≤ room x) × Grouped min x × Grouped (op_prec op + 1) y
Grouped min (unary_expr sp op x) = Grouped (prefix_prec op + 1) x
Grouped min (like_expr sp op neg x y no_expr) =
    (min ≤ prec_compare) × (left_prec neg ≤ room x) × Grouped min x × Grouped (prec_compare + 1) y
Grouped min (like_expr sp op neg x y (an_expr z)) =
    (min ≤ prec_compare)
    × (left_prec neg ≤ room x)
    × Grouped min x
    × Grouped (prec_compare + 1) y
    × Grouped (prec_compare + 1) z
Grouped min (is_expr sp neg distinct x y) =
    (min ≤ prec_compare) × (prec_compare ≤ room x) × Grouped min x × Grouped (prec_compare + 1) y
Grouped min (between_expr sp neg x lo hi) =
    (min ≤ prec_compare) × (left_prec neg ≤ room x) × Grouped min x × Grouped (prec_compare + 1) hi
Grouped min (null_check_expr sp test x) =
    (min ≤ prec_compare) × (null_prec test ≤ room x) × Grouped min x
Grouped min (in_expr sp neg x parens list q table args has_args) =
    (min ≤ prec_compare) × (left_prec neg ≤ room x) × Grouped min x
Grouped min (collate_expr sp x n) = (min ≤ prec_collate) × (prec_collate ≤ room x) × Grouped min x
Grouped min _ = Unit {0}

-- The infix table agrees with the precedences of its operators.
unfoldable Sound : InfixOp → Type 0
unfolding op_prec
Sound o = (op_prec o.op ≡ o.prec) × (o.prec ≤ prec_unary)

module _ where
  Sound-if : (b : Bool) (o u : InfixOp) → Sound o → Sound u → Sound (if b then o else u)
  Sound-if true o u h k = h
  Sound-if false o u h k = k

  Sound-op_at :
      (n : ℕ) (o : Operator)
      → op_prec o ≡ n
      → ltb prec_unary n ≡ false
      → Sound (record { prec = n; op = o })
  unfolding Sound
  Sound-op_at n o e h = (e, ltb→le prec_unary n h)

  infix_op-Sound : (k : Kind) → Sound (infix_op k)
  unfolding infix_op op_prec
  infix_op-Sound k = search (Sound-if, Sound-op_at) depth 40

pub op_prec-infix_op : (k : Kind) → op_prec (infix_op k).op ≡ (infix_op k).prec
unfolding Sound
op_prec-infix_op k = (infix_op-Sound k).0

-- The precedence of the lookahead.
unfoldable pub prec_at : State → ℕ
unfolding token_prec cur_kind peek_kind
prec_at s = token_prec (cur_kind s) (peek_kind 1 s)

module _ where
  if-le : (b : Bool) (m k n : ℕ) → m ≤ n → k ≤ n → (if b then m else k) ≤ n
  if-le true m k n h d = h
  if-le false m k n h d = d

pub token_prec-le : (k next : Kind) → token_prec k next ≤ prec_unary
unfolding token_prec Sound not_prec
token_prec-le k next = if-le (is_infix k) _ _ _ (infix_op-Sound k).1 (
    if-le (k == Kind.collate) _ _ _ (omega arith) (
      if-le (compares k) _ _ _ (omega arith) (
        if-le (k == Kind.not) _ _ _ (if-le (next == Kind.null) _ _ _ (omega arith) (omega arith))
          (omega arith))))

pub prec_at-le : (s : State) → prec_at s ≤ prec_unary
unfolding prec_at
prec_at-le s = token_prec-le (cur_kind s) (peek_kind 1 s)
