-- ===== src/Lexer/Run.antt =====
-- One name for all that a run of the tokenizer unfolds, for tests.
use meyer.Base.{Bytes, List}
use meyer.Token.{Token}
use meyer.Keywords.{can_fallback}
use meyer.Keywords.Table.{keyword_shape, lookup, scan_rows}
use meyer.Lexer.Chars.{
  is_space, is_space_start, is_digit, is_hex, is_id_char, is_keyword_start, is_keyword_char, run_of,
}
use meyer.Lexer.Number.{scan_digits, scan_fraction, scan_exponent, scan_number_tail, scan_number}
use meyer.Lexer.Literal.{
  scan_args, scan_name, scan_variable, scan_quoted, scan_quote, scan_bracket, scan_blob,
}
use meyer.Lexer.Scan.{
  scan_ident, scan_block, scan_minus, scan_slash, scan_less, scan_greater, scan_x, scan_bom,
  scan_keyword, scan_single, scan,
}
use meyer.Lexer.Lex.{as_id, resolve_kind, resolve, lex_from, lex_with, lex}

unfoldable pub run_lex : Bytes → List Token
unfolding can_fallback keyword_shape lookup scan_rows is_space is_space_start is_digit is_hex
    is_id_char is_keyword_start is_keyword_char run_of scan_digits scan_fraction scan_exponent
    scan_number_tail scan_number scan_args scan_name scan_variable scan_quoted scan_quote
    scan_bracket scan_blob scan_ident scan_block scan_minus scan_slash scan_less scan_greater scan_x
    scan_bom scan_keyword scan_single scan as_id resolve_kind resolve lex_from lex_with lex
run_lex = lex
