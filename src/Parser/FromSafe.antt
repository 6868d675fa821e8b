-- ===== src/Parser/FromSafe.antt =====
-- parser/parse_select.go: the items of FROM keep the invariant.
use meyer.Base.{Option, [], false, refl, some, suc, zero, ℕ, ◌≡◌, ◌∷◌}
use meyer.Token.{Kind, Token}
use meyer.Ast.{QualifiedName}
use meyer.Ast.Expr.{JoinOperator}
use meyer.Parser.State.{◌>>=◌, at}
use meyer.Parser.Combine.{many}
use meyer.Parser.Rec.{Rec}
use meyer.Parser.Rules.{
  Stays-on_class, StaysRec, eats_rules, rec_rules, stays_rules, Stays-expect_name,
}
use meyer.Parser.Stays.{Eats, Stays, Stays-pure, Stays-bind, Stays-gets, Stays-if}
use meyer.Parser.Repeats.{Stays-many}
use meyer.Parser.From.{
  join_operator, parse_alias, parse_from_list, parse_func_ref, parse_indexed_opt, parse_join_kw,
  parse_join_names, parse_nested_ref, parse_on_using, parse_paren_ref, parse_plain_ref, starts_join,
  table_ref_body,
}

starts_join-eof : starts_join Kind.eof ≡ false
unfolding starts_join
starts_join-eof = refl

module _ {n : ℕ} where
  pub Stays-parse_alias : Stays n parse_alias
  unfolding parse_alias
  Stays-parse_alias = search (stays_rules, Stays-on_class) depth 30

  Stays-parse_join_names : (k : ℕ) → Stays n (parse_join_names k)
  unfolding parse_join_names
  Stays-parse_join_names zero = Stays-pure []
  Stays-parse_join_names (suc k) = Stays-bind _ _ (Stays-gets (at Kind.join)) λ here.
      Stays-if here _ _ (Stays-pure []) (
        Stays-bind _ _ Stays-expect_name
          λ w. Stays-bind _ _ (Stays-parse_join_names k) λ ws. Stays-pure (w.raw ∷ ws))

  pub Stays-parse_indexed_opt : Stays n parse_indexed_opt
  unfolding parse_indexed_opt
  Stays-parse_indexed_opt = search rec_rules depth 30

  pub Stays-parse_join_kw : (a : Token) → Stays n (parse_join_kw a)
  unfolding parse_join_kw
  Stays-parse_join_kw a = search (rec_rules, Stays-parse_join_names) depth 30

  pub Stays-join_operator : (a : Token) → Stays n (join_operator a)
  unfolding join_operator
  Stays-join_operator a = search (rec_rules, Stays-parse_join_kw) depth 30

module _ {n : ℕ} (r : Rec) (h : StaysRec n r) where
  Stays-joined :
      Stays n (many starts_join (λ t. join_operator t >>= λ op. r.parse_table_ref (some op)))
  Stays-joined =
      Stays-many starts_join starts_join-eof _
        λ t. search (stays_rules, Stays-join_operator, h.table_ref) depth 24

  pub Stays-parse_from_list : Stays n (parse_from_list r)
  unfolding parse_from_list
  Stays-parse_from_list = search (rec_rules, h.table_ref, Stays-joined) depth 30

  pub Stays-parse_on_using : Stays n (parse_on_using r)
  unfolding parse_on_using
  Stays-parse_on_using = search (rec_rules, h.expr) depth 30

  pub Stays-parse_nested_ref : Stays n (parse_nested_ref r)
  unfolding parse_nested_ref
  Stays-parse_nested_ref = search (rec_rules, Stays-parse_from_list) depth 30

  pub Stays-parse_paren_ref : (a : Option JoinOperator) (b : ℕ) → Stays n (parse_paren_ref r a b)
  unfolding parse_paren_ref
  Stays-parse_paren_ref a b =
      search (rec_rules, Stays-parse_on_using, Stays-parse_nested_ref, Stays-parse_alias) depth 30

  pub Stays-parse_func_ref :
      (a : Option JoinOperator) (b : ℕ) (c : QualifiedName) → Stays n (parse_func_ref r a b c)
  unfolding parse_func_ref
  Stays-parse_func_ref a b c = search (rec_rules, Stays-parse_on_using, Stays-parse_alias) depth 30

  pub Stays-parse_plain_ref :
      (a : Option JoinOperator) (b : ℕ) (c : QualifiedName) → Stays n (parse_plain_ref r a b c)
  unfolding parse_plain_ref
  Stays-parse_plain_ref a b c =
      search (rec_rules, Stays-parse_indexed_opt, Stays-parse_on_using, Stays-parse_alias) depth 30

  -- An item of FROM consumes a token.
  pub Eats-table_ref_body : (join : Option JoinOperator) → Eats n (table_ref_body r join)
  unfolding table_ref_body
  Eats-table_ref_body join =
      search
        (
          eats_rules, stays_rules, Stays-parse_paren_ref, Stays-parse_func_ref,
          Stays-parse_plain_ref,
        )
        depth 24
