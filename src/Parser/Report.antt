-- ===== src/Parser/Report.antt =====
-- parser/parser.go: how the errors of `ParseString` read.
use meyer.Base.{Bytes, ◌≡◌, subst}
use meyer.Parser.State.{Error, Outcome, failed, Options}
use meyer.Parser.Safe.{Good, rejects}
use meyer.Parser.Entry.{parse_string}
use meyer.Parser.Answer.{Answer, accepts, rejects, parse_string-Answer}
use meyer.Parser.Render.{Located, error_string, error_string-Located}

Answer-failed {ℓ κ} :
    {A : Type ℓ} {src : Bytes} {R : A → Type κ} {o : Outcome A} (e : Error)
    → Answer src R o
    → o ≡ failed e
    → Good src e
Answer-failed e (accepts _ _ _ _) h = absurd (cc h)
Answer-failed {src = src} e (rejects g) h = subst (Good src) (cc h) g

-- Error renders an error that ParseString returns so that a line, a column and the message of the
-- error are read back from the text, and the line and the column are the position of its offset in
-- the input: the line is one more than the newlines before it, and the column leads from the start
-- of that line to it.
pub parse_string-Located :
    (opts : Options) (src : Bytes) (e : Error)
    → parse_string opts src ≡ failed e
    → Located src e (error_string e)
parse_string-Located opts src e h =
    error_string-Located src e (Answer-failed e (parse_string-Answer opts src) h)
