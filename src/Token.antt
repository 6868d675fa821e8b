-- ===== src/Token.antt =====
-- token/token.go: a token is a kind with a byte range. The spelling is no field: `text` cuts it
-- out of the source.
mod Kinds
mod Codes
pub use Kinds.{Kind}
pub use Codes.{code, code-injective, kind_eq}
use meyer.Base.{ℕ, ◌-◌, Bytes, take, drop}

pub record Token : Type 0 where
  pub kind : Kind
  pub pos : ℕ
  pub end : ℕ

-- `src[t.Pos:t.End]`
abbrev pub text : Token → Bytes → Bytes
text t src = take (t.end - t.pos) (drop t.pos src)
