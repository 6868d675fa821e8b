-- ===== src/Parser/NamesSafe.antt =====
-- parser/parser.go: the name productions keep the invariant.
use meyer.Parser.Safe.{Safe, safe_rules}
use meyer.Parser.Looks.{
  Safe-accept, Safe-advance, Safe-expect, Safe-flush_deferred, Safe-syntax_error,
}
use meyer.Parser.Names.{
  expect_ids, expect_name, parse_sign, parse_signed_number, qualified_name, take_ident, xfullname,
}

pub ruleset look_rules =
    (safe_rules, Safe-advance, Safe-accept, Safe-expect, Safe-syntax_error, Safe-flush_deferred)

pub Safe-take_ident : Safe take_ident
unfolding take_ident
Safe-take_ident = search look_rules depth 24

pub Safe-expect_name : Safe expect_name
unfolding expect_name
Safe-expect_name = search (look_rules, Safe-take_ident) depth 24

pub Safe-expect_ids : Safe expect_ids
unfolding expect_ids
Safe-expect_ids = search (look_rules, Safe-take_ident) depth 24

pub Safe-qualified_name : Safe qualified_name
unfolding qualified_name
Safe-qualified_name = search (look_rules, Safe-expect_name) depth 24

pub Safe-xfullname : Safe xfullname
unfolding xfullname
Safe-xfullname = search (look_rules, Safe-expect_name, Safe-qualified_name) depth 24

pub Safe-parse_sign : Safe parse_sign
unfolding parse_sign
Safe-parse_sign = search look_rules depth 24

pub Safe-parse_signed_number : Safe parse_signed_number
unfolding parse_signed_number
Safe-parse_signed_number = search (look_rules, Safe-parse_sign) depth 24

pub ruleset name_rules = (
  look_rules, Safe-expect_name, Safe-expect_ids, Safe-qualified_name, Safe-xfullname,
  Safe-parse_signed_number,
)
