-- ===== src/Parser/Trigger.antt =====
-- parser/parse_trigger.go: CREATE TRIGGER and the statements of its body.
use meyer.Base.{
  Bool, Bytes, List, [], false, if◌then◌else◌, map, suc, true, zero, ℕ, ◌==◌, ◌||◌, ◌∷◌, nat_eq,
}
use meyer.Token.{Kind, kind_eq}
use meyer.Keywords.Table.{upper}
use meyer.Ast.{Ident}
use meyer.Ast.Ddl.{
  CreateTriggerStmt, Dml, TriggerTime, dml_delete, dml_insert, dml_select, dml_update,
  trigger_after, trigger_before, trigger_instead_of,
}
use meyer.Parser.State.{Parser, at, cur, gets, out_of_fuel, pure, ◌>>=◌, ◌>>◌}
use meyer.Parser.Look.{expect, span, syntax_error}
use meyer.Parser.Names.{qualified_name, src_text}
use meyer.Parser.Combine.{on, on_class, remaining}
use meyer.Parser.Rec.{Rec, clause, expr_after, parse_id_list, prec_lowest}
use meyer.Parser.Dml.{trigger_delete, trigger_insert, trigger_update}
use meyer.Parser.Drop.{parse_if_not_exists}

-- `foreach_clause`
unfoldable pub parse_for_each : Parser Bool
unfolding clause expect
parse_for_each = clause false Kind.for (do expect Kind.each; expect Kind.row; pure true)

-- `trigger_time`, and whether it is written.
unfoldable pub parse_trigger_time : Parser (TriggerTime × Bool)
unfolding on expect
parse_trigger_time =
    on Kind.before (λ t. pure (trigger_before, true))
      (on Kind.after (λ t. pure (trigger_after, true))
        (on Kind.instead (λ t. do expect Kind.of; pure (trigger_instead_of, true))
          (pure (trigger_before, false))))

-- `trigger_event`
unfoldable pub parse_trigger_event : Parser (Bytes × List Ident)
unfolding on_class upper on clause parse_id_list syntax_error
parse_trigger_event =
    on_class (λ k. k == Kind.delete || k == Kind.insert)
      (λ t. do z ← src_text t; pure (map upper z, []))
      (on Kind.update
        (λ t. do z ← src_text t; names ← clause [] Kind.of parse_id_list; pure (map upper z, names))
        syntax_error)

module _ (r : Rec) where
  -- `parseTriggerCmd`
  unfoldable pub parse_trigger_cmd : Parser Dml
  unfolding cur trigger_update trigger_insert trigger_delete
  parse_trigger_cmd = do
    t ← gets cur
    if t.kind == Kind.update
        then (do n ← trigger_update r t.pos; pure (dml_update n))
        else if t.kind == Kind.insert || t.kind == Kind.replace
        then (do n ← trigger_insert r t.pos; pure (dml_insert n))
        else if t.kind == Kind.delete
        then (do n ← trigger_delete r t.pos; pure (dml_delete n))
        else (do n ← r.parse_select; pure (dml_select n))

  -- One round of the loop over a trigger's body.
  unfoldable pub trigger_round : Parser (List Dml) → Parser (List Dml)
  unfolding parse_trigger_cmd expect at
  trigger_round rest = do
    c ← parse_trigger_cmd
    expect Kind.semi
    end ← gets (at Kind.end)
    cs ← if end then pure [] else rest
    pure (c ∷ cs)

  -- The loop, with fuel for the tokens that are left.
  unfoldable pub trigger_cmds : ℕ → Parser (List Dml)
  unfolding trigger_round
  trigger_cmds zero = λ s. out_of_fuel
  trigger_cmds (suc fuel) = trigger_round (trigger_cmds fuel)

  -- `parseCreateTrigger`
  unfoldable pub parse_create_trigger : ℕ → Bool → Parser CreateTriggerStmt
  unfolding expect parse_if_not_exists qualified_name parse_trigger_time parse_trigger_event
      parse_for_each expr_after trigger_cmds span
  parse_create_trigger start temp = do
    expect Kind.trigger
    guarded ← parse_if_not_exists
    name ← qualified_name
    time ← parse_trigger_time
    event ← parse_trigger_event
    expect Kind.on
    table ← qualified_name
    each ← parse_for_each
    cond ← expr_after r Kind.when prec_lowest
    expect Kind.begin
    body ← λ s. trigger_cmds (remaining s) s
    expect Kind.end
    sp ← gets (span start)
    pure (record {
      span = sp;
      temp = temp;
      if_not_exists = guarded;
      name = name;
      time = time.0;
      has_time = time.1;
      event = event.0;
      update_of = event.1;
      table = table;
      for_each_row = each;
      when = cond;
      body = body;
    })
