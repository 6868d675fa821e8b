-- ===== src/Lexer/Tests.antt =====
-- The tokenizer on inputs that can be followed in the source.
use meyer.Base.{Bytes, List, map, ◌∷◌, ◌≡◌, if◌then◌else◌, ltb, ◌++◌, ◌+◌, [], refl}
use meyer.Token.{Kind, Token}
use meyer.Keywords.{codes}
use meyer.Lexer.Lex.{eof_token, lex, lex_file}
use meyer.Lexer.Resolved.{Resolved, lex-Resolved}
use meyer.Lexer.Consumed.{whole, lex-lex_file, Tiled, lex_file-Tiled, lex_file-nul}
use meyer.Lexer.Cover.{lex_file-covers, covers, last_pos}
use meyer.Lexer.Run.{run_lex}

abbrev kinds_of : List Token → List Kind
kinds_of = map (λ t. t.kind)

lex_select :
    kinds_of (lex (codes "SELECT a, 'b''c' -- x\n FROM [t] WHERE x>=:v AND 1.5e3<>0x1F"))
    ≡ Kind.select ∷ Kind.id ∷ Kind.comma ∷ Kind.string ∷ Kind.from ∷ Kind.id ∷ Kind.where_kw
      ∷ Kind.id ∷ Kind.ge ∷ Kind.variable ∷ Kind.and ∷ Kind.float ∷ Kind.ne ∷ Kind.integer
      ∷ Kind.eof ∷ []
unfolding run_lex
lex_select = refl

lex_window :
    kinds_of (lex (codes "sum(x) over w /* c */ x'0a' x'0' window filter 1_0 $a(b) ?1 \0z"))
    ≡ Kind.id ∷ Kind.lp ∷ Kind.id ∷ Kind.rp ∷ Kind.over ∷ Kind.id ∷ Kind.blob ∷ Kind.illegal
      ∷ Kind.id ∷ Kind.id ∷ Kind.qnumber ∷ Kind.variable ∷ Kind.variable ∷ Kind.eof ∷ []
unfolding run_lex
lex_window = refl

abbrev sample : Bytes
sample = codes "SELECT -- all\n sum(x) OVER w"

lex_file-Tiled_example : Tiled sample (lex_file sample).0 (lex_file sample).1
lex_file-Tiled_example = lex_file-Tiled sample

lex_file-covers_example :
    covers 8 (lex_file sample).0 + covers 8 (lex_file sample).1
    ≡ (if ltb 8 (last_pos (lex_file sample).0) then 1 else 0)
lex_file-covers_example = lex_file-covers sample 8

lex_file-nul_example : lex_file (sample ++ 0 ∷ codes "'") ≡ lex_file sample
lex_file-nul_example = lex_file-nul sample (codes "'")

lex-lex_file_example : lex sample ≡ (lex_file sample).0
lex-lex_file_example = lex-lex_file sample

abbrev windowed : Bytes
windowed = codes "count(*) FILTER (WHERE x) OVER w, over, filter(1) WINDOW w AS ()"

lex-Resolved_example :
    (us : List Token) × (lex windowed ≡ us ++ eof_token (whole windowed).stop ∷ [])
    × Resolved (whole windowed).toks us
lex-Resolved_example = lex-Resolved windowed

lex_keywords_kept :
    kinds_of (lex windowed)
    ≡ Kind.id ∷ Kind.lp ∷ Kind.star ∷ Kind.rp ∷ Kind.filter ∷ Kind.lp ∷ Kind.where_kw ∷ Kind.id
      ∷ Kind.rp ∷ Kind.over ∷ Kind.id ∷ Kind.comma ∷ Kind.id ∷ Kind.comma ∷ Kind.id ∷ Kind.lp
      ∷ Kind.integer ∷ Kind.rp ∷ Kind.window ∷ Kind.id ∷ Kind.as_kw ∷ Kind.lp ∷ Kind.rp ∷ Kind.eof
      ∷ []
unfolding run_lex
lex_keywords_kept = refl
