-- ===== src/Parser/From.antt =====
-- parser/parse_select.go: aliases, join operators and the items of FROM; `parseIndexedOpt` of
-- parser/parse_dml.go.
use meyer.Base.{
  Bool, Bytes, List, Option, [], false, if◌then◌else◌, none, some, suc, true, zero, ℕ, ◌++◌, ◌==◌,
  ◌||◌, ◌∷◌, drop, get_or, ◌&&◌, nat_eq,
}
use meyer.Token.{Kind, Token, kind_eq}
use meyer.Keywords.{codes, is_ids}
use meyer.Keywords.Find.{bytes_beq}
use meyer.Keywords.Table.{upper}
use meyer.Ast.{Ident, QualifiedName}
use meyer.Ast.Expr.{
  ExprOpt, JoinOperator, JoinType, SelectOpt, TableRef, TableRefs, a_select, an_expr, no_expr,
  no_exprs, no_refs, no_select, ref_cons, table_ref,
}
use meyer.Parser.State.{Parser, State, at, gets, pure, ◌>>=◌, ◌>>◌}
use meyer.Parser.Look.{expect, nested, span, span_of}
use meyer.Parser.Names.{expect_name, ident_of, qualified_name, src_text}
use meyer.Parser.Combine.{many, on, on_class}
use meyer.Parser.Rec.{Rec, at_select, clause, cur_pos, parse_args, parse_id_list, prec_lowest}

unfoldable pub ref_list : List TableRef → TableRefs
ref_list [] = no_refs
ref_list (x ∷ xs) = ref_cons x (ref_list xs)

-- `parseAlias`
unfoldable pub parse_alias : Parser (Option Ident × Bool)
unfolding on expect_name on_class is_ids ident_of
parse_alias =
    on Kind.as_kw (λ t. do n ← expect_name; pure (some n, true))
      (on_class is_ids (λ t. do n ← gets (λ s. ident_of t s.src); pure (some n, false))
        (pure (none, false)))

-- `parseIndexedOpt`
unfoldable pub parse_indexed_opt : Parser (Option Ident × Bool)
unfolding on expect expect_name
parse_indexed_opt =
    on Kind.indexed (λ t. do expect Kind.by; n ← expect_name; pure (some n, false))
      (on Kind.not (λ t. do expect Kind.indexed; pure (none, true)) (pure (none, false)))

abbrev pub no_join_type : JoinType
no_join_type = record {
  inner = false;
  cross = false;
  natural = false;
  left = false;
  right = false;
  outer = false;
  comma = false;
}

-- `strings.ToUpper`, as a comparison with an ASCII text shows it: besides the ASCII letters, the
-- characters with an ASCII upper case are U+017F (bytes 197, 191) and U+0131 (bytes 196, 177). Any
-- other byte stands for itself; the character it belongs to has no ASCII upper case.
unfoldable pub to_upper : Bytes → Bytes
unfolding upper
to_upper [] = []
to_upper (c ∷ z) =
    let rest = to_upper z in
    if c == 197 && get_or z 0 0 == 191
    then b'S' ∷ drop 1 rest
    else if c == 196 && get_or z 0 0 == 177
    then b'I' ∷ drop 1 rest
    else upper c ∷ rest

-- The bits that a keyword of `joinTypeOf` sets.
unfoldable pub join_word : Bytes → JoinType → JoinType
unfolding to_upper
join_word w t =
    let z = to_upper w in
    if bytes_beq z (codes "NATURAL")
    then record t { natural = true }
    else if bytes_beq z (codes "LEFT")
    then record t { left = true; outer = true }
    else if bytes_beq z (codes "RIGHT")
    then record t { right = true; outer = true }
    else if bytes_beq z (codes "FULL")
    then record t { left = true; right = true; outer = true }
    else if bytes_beq z (codes "OUTER")
    then record t { outer = true }
    else if bytes_beq z (codes "INNER")
    then record t { inner = true }
    else if bytes_beq z (codes "CROSS")
    then record t { inner = true; cross = true }
    else t

unfoldable pub join_words_from : JoinType → List Bytes → JoinType
unfolding join_word
join_words_from t [] = t
join_words_from t (w ∷ ws) = join_words_from (join_word w t) ws

-- `joinTypeOf`
unfoldable pub join_type_of : List Bytes → JoinType
unfolding join_words_from
join_type_of ws = join_words_from no_join_type ws

-- The names between a JOIN_KW and its JOIN, `n` at most.
unfoldable pub parse_join_names : ℕ → Parser (List Bytes)
unfolding at expect_name
parse_join_names zero = pure []
parse_join_names (suc n) = do
  here ← gets (at Kind.join)
  if here then pure [] else (do w ← expect_name; ws ← parse_join_names n; pure (w.raw ∷ ws))

-- A token with which `tryJoinOperator` finds an operator.
unfoldable pub starts_join : Kind → Bool
starts_join k = k == Kind.comma || k == Kind.join || k == Kind.join_kw

-- The operator that a JOIN_KW starts.
unfoldable pub parse_join_kw : Token → Parser JoinOperator
unfolding parse_join_names expect span join_type_of
parse_join_kw t = do
  first ← src_text t
  names ← parse_join_names 2
  expect Kind.join
  sp ← gets (span t.pos)
  let words = first ∷ names ++ codes "JOIN" ∷ []
  pure (record { span = sp; type = join_type_of words; words = words })

-- `tryJoinOperator` behind the token it consumes.
unfoldable pub join_operator : Token → Parser JoinOperator
unfolding span parse_join_kw
join_operator t =
    if t.kind == Kind.comma
    then pure (record {
      span = span_of t;
      type = record no_join_type { inner = true; comma = true };
      words = [];
    })
    else if t.kind == Kind.join
    then (do
      z ← src_text t
      pure (record {
        span = span_of t;
        type = record no_join_type { inner = true };
        words = z ∷ [];
      }))
    else parse_join_kw t

-- `start` of `parseTableRef`
unfoldable pub ref_start : Option JoinOperator → State → ℕ
unfolding cur_pos
ref_start none s = cur_pos s
ref_start (some j) s = j.span.start

module _ (r : Rec) where
  -- `parseFromList`
  unfoldable pub parse_from_list : Parser TableRefs
  unfolding many starts_join join_operator ref_list
  parse_from_list = do
    x ← r.parse_table_ref none
    xs ← many starts_join (λ t. do op ← join_operator t; r.parse_table_ref (some op))
    pure (ref_list (x ∷ xs))

  -- `parseOnUsing`
  unfoldable pub parse_on_using : Parser (ExprOpt × List Ident)
  unfolding on clause expect parse_id_list
  parse_on_using =
      on Kind.on (λ t. do x ← r.parse_expr prec_lowest; pure (an_expr x, []))
        (clause (no_expr, []) Kind.using
          (do expect Kind.lp; names ← parse_id_list; expect Kind.rp; pure (no_expr, names)))

  -- The source of a FROM item in parentheses.
  unfoldable pub parse_nested_ref : Parser (SelectOpt × TableRefs)
  unfolding at_select parse_from_list
  parse_nested_ref = do
    sel ← gets at_select
    if sel
        then (do q ← r.parse_select; pure (a_select q, no_refs))
        else (do list ← parse_from_list; pure (no_select, list))

  unfoldable pub parse_paren_ref : Option JoinOperator → ℕ → Parser TableRef
  unfolding parse_nested_ref expect parse_alias parse_on_using span
  parse_paren_ref join start = do
    b ← parse_nested_ref
    expect Kind.rp
    alias ← parse_alias
    c ← parse_on_using
    sp ← gets (span start)
    pure (table_ref sp join none no_exprs false b.0 b.1 alias.0 alias.1 none false c.0 c.1)

  -- A table-valued function behind its opening parenthesis.
  unfoldable pub parse_func_ref : Option JoinOperator → ℕ → QualifiedName → Parser TableRef
  unfolding parse_args expect parse_alias parse_on_using span
  parse_func_ref join start name = do
    args ← parse_args r
    expect Kind.rp
    alias ← parse_alias
    c ← parse_on_using
    sp ← gets (span start)
    pure (
        table_ref sp join (some name) args true no_select no_refs alias.0 alias.1 none false c.0
          c.1)

  unfoldable pub parse_plain_ref : Option JoinOperator → ℕ → QualifiedName → Parser TableRef
  unfolding parse_alias parse_indexed_opt parse_on_using span
  parse_plain_ref join start name = do
    alias ← parse_alias
    indexed ← parse_indexed_opt
    c ← parse_on_using
    sp ← gets (span start)
    pure (
        table_ref sp join (some name) no_exprs false no_select no_refs alias.0 alias.1 indexed.0
          indexed.1 c.0 c.1)

  -- The body of `parseTableRef`.
  unfoldable pub table_ref_body : Option JoinOperator → Parser TableRef
  unfolding nested ref_start on parse_paren_ref qualified_name parse_func_ref parse_plain_ref
  table_ref_body join = nested (do
    start ← gets (ref_start join)
    on Kind.lp (λ t. parse_paren_ref join start)
        (do
          name ← qualified_name
          on Kind.lp (λ t. parse_func_ref join start name) (parse_plain_ref join start name)))
