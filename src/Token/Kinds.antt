-- ===== src/Token/Kinds.antt =====
-- token/token.go: `Kind`. A constructor is the source's constant in lower case; those that antt
-- reserves, or that spell a part of its conditional, take the suffix `_kw`.
pub data Kind : Type 0 where
  eof space comment illegal id string integer float blob variable qnumber lp : Kind
  rp semi comma dot plus minus star slash rem eq ne lt : Kind
  le gt ge lshift rshift bitand bitor bitnot concat ptr abort action : Kind
  add after all alter always analyze and as_kw asc attach autoincr before : Kind
  begin between by cascade case cast check collate column_kw commit conflict constraint : Kind
  create current ctime_kw database default deferred deferrable delete desc detach distinct : Kind
  do_kw : Kind
  drop end each else_kw escape except exclusive exclude exists explain fail filter : Kind
  first following for foreign from generated group groups having if_kw ignore immediate : Kind
  in_kw index indexed initially insert instead intersect into is isnull join join_kw : Kind
  key last like_kw limit match materialized no_kw not nothing notnull null nulls : Kind
  of offset on or order others over partition plan pragma preceding primary : Kind
  query raise range recursive references reindex release rename replace restrict returning : Kind
  rollback : Kind
  row rows savepoint select set table temp then_kw ties to transaction trigger : Kind
  unbounded union unique update using vacuum values view virtual when where_kw window : Kind
  with without : Kind
