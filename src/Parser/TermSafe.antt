-- ===== src/Parser/TermSafe.antt =====
-- parser/parse_expr.go: the productions without a part that is an expression keep the invariant.
use meyer.Base.{ℕ, false, refl, ◌≡◌, arith}
use meyer.Keywords.{is_ids}
use meyer.Token.{Token, Kind}
use meyer.Ast.Expr.{LiteralKind}
use meyer.Parser.Reads.{Eats-on_token, Reads-parse_qnumber}
use meyer.Parser.Rules.{stays_rules, Eats-on}
use meyer.Parser.Stays.{Stays, Stays-gets, Eats, Eats-syntax_error, Stays-Eats, Stays-le}
use meyer.Parser.Term.{
  parse_ctime, parse_literal, parse_qualified_ref, parse_string_literal, parse_term,
  parse_type_args, parse_type_name, parse_type_token,
}
use meyer.Parser.Combine.{many}
use meyer.Parser.Names.{src_text}
use meyer.Parser.Repeats.{Stays-many}

is_ids-eof : is_ids Kind.eof ≡ false
unfolding is_ids
is_ids-eof = refl

module _ {n : ℕ} where
  Stays-words : Stays n (many is_ids src_text)
  Stays-words = Stays-many is_ids is_ids-eof src_text (λ t. Stays-gets _)

  pub Stays-parse_literal : (a : LiteralKind) (b : Token) → Stays n (parse_literal a b)
  unfolding parse_literal
  Stays-parse_literal a b = search stays_rules depth 30

  pub Stays-parse_string_literal : (a : Token) → Stays n (parse_string_literal a)
  unfolding parse_string_literal
  Stays-parse_string_literal a = search stays_rules depth 30

  pub Stays-parse_ctime : (a : Token) → Stays n (parse_ctime a)
  unfolding parse_ctime
  Stays-parse_ctime a = search stays_rules depth 30

  -- A literal consumes its token.
  pub Eats-parse_term : Eats n parse_term
  unfolding parse_term
  Eats-parse_term =
      search
        (
          Eats-on, Eats-syntax_error, Eats-on_token, Reads-parse_qnumber, Stays-parse_literal,
          Stays-parse_string_literal, Stays-parse_ctime,
        )
        depth 24

  pub Stays-parse_qualified_ref : Stays n parse_qualified_ref
  unfolding parse_qualified_ref
  Stays-parse_qualified_ref = search stays_rules depth 30

  pub Stays-parse_type_args : Stays n parse_type_args
  unfolding parse_type_args
  Stays-parse_type_args = search stays_rules depth 30

  pub Stays-parse_type_name : (a : Token) → Stays n (parse_type_name a)
  unfolding parse_type_name
  Stays-parse_type_name a = search (stays_rules, Stays-words, Stays-parse_type_args) depth 30

  pub Stays-parse_type_token : Stays n parse_type_token
  unfolding parse_type_token
  Stays-parse_type_token = search (stays_rules, Stays-parse_type_name) depth 30

  pub Stays-parse_term : Stays n parse_term
  Stays-parse_term = Stays-le (omega arith) (Stays-Eats Eats-parse_term)
