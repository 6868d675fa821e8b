-- ===== src/Keywords.antt =====
-- token/keywords.go: the keyword map, the %fallback set and the token classes of the grammar.
-- `Table` builds the table that `Lookup` searches, and `Lookup` searches it.
pub mod Table
pub mod Find
pub mod Lookup
mod Tests
use Prim.Native.Char.{code as code_point}
use Prim.Native.String.{String}
use meyer.Base.{ℕ, Bytes, ◌&&◌, ◌||◌, Bool, true, false, List, [], ◌∷◌, ◌==◌}
use meyer.Token.{Kind, kind_eq}

-- The bytes of an ASCII text.
abbrev pub codes : String → Bytes
codes String.[] = []
codes (String.◌∷◌ c s) = code_point c ∷ codes s

-- `keywords`, in the order of its literal.
unfoldable pub keywords : List (Bytes × Kind)
keywords =
    (codes "ABORT", Kind.abort)
    ∷ (codes "ACTION", Kind.action)
    ∷ (codes "ADD", Kind.add)
    ∷ (codes "AFTER", Kind.after)
    ∷ (codes "ALL", Kind.all)
    ∷ (codes "ALTER", Kind.alter)
    ∷ (codes "ALWAYS", Kind.always)
    ∷ (codes "ANALYZE", Kind.analyze)
    ∷ (codes "AND", Kind.and)
    ∷ (codes "AS", Kind.as_kw)
    ∷ (codes "ASC", Kind.asc)
    ∷ (codes "ATTACH", Kind.attach)
    ∷ (codes "AUTOINCREMENT", Kind.autoincr)
    ∷ (codes "BEFORE", Kind.before)
    ∷ (codes "BEGIN", Kind.begin)
    ∷ (codes "BETWEEN", Kind.between)
    ∷ (codes "BY", Kind.by)
    ∷ (codes "CASCADE", Kind.cascade)
    ∷ (codes "CASE", Kind.case)
    ∷ (codes "CAST", Kind.cast)
    ∷ (codes "CHECK", Kind.check)
    ∷ (codes "COLLATE", Kind.collate)
    ∷ (codes "COLUMN", Kind.column_kw)
    ∷ (codes "COMMIT", Kind.commit)
    ∷ (codes "CONFLICT", Kind.conflict)
    ∷ (codes "CONSTRAINT", Kind.constraint)
    ∷ (codes "CREATE", Kind.create)
    ∷ (codes "CROSS", Kind.join_kw)
    ∷ (codes "CURRENT", Kind.current)
    ∷ (codes "CURRENT_DATE", Kind.ctime_kw)
    ∷ (codes "CURRENT_TIME", Kind.ctime_kw)
    ∷ (codes "CURRENT_TIMESTAMP", Kind.ctime_kw)
    ∷ (codes "DATABASE", Kind.database)
    ∷ (codes "DEFAULT", Kind.default)
    ∷ (codes "DEFERRED", Kind.deferred)
    ∷ (codes "DEFERRABLE", Kind.deferrable)
    ∷ (codes "DELETE", Kind.delete)
    ∷ (codes "DESC", Kind.desc)
    ∷ (codes "DETACH", Kind.detach)
    ∷ (codes "DISTINCT", Kind.distinct)
    ∷ (codes "DO", Kind.do_kw)
    ∷ (codes "DROP", Kind.drop)
    ∷ (codes "END", Kind.end)
    ∷ (codes "EACH", Kind.each)
    ∷ (codes "ELSE", Kind.else_kw)
    ∷ (codes "ESCAPE", Kind.escape)
    ∷ (codes "EXCEPT", Kind.except)
    ∷ (codes "EXCLUSIVE", Kind.exclusive)
    ∷ (codes "EXCLUDE", Kind.exclude)
    ∷ (codes "EXISTS", Kind.exists)
    ∷ (codes "EXPLAIN", Kind.explain)
    ∷ (codes "FAIL", Kind.fail)
    ∷ (codes "FILTER", Kind.filter)
    ∷ (codes "FIRST", Kind.first)
    ∷ (codes "FOLLOWING", Kind.following)
    ∷ (codes "FOR", Kind.for)
    ∷ (codes "FOREIGN", Kind.foreign)
    ∷ (codes "FROM", Kind.from)
    ∷ (codes "FULL", Kind.join_kw)
    ∷ (codes "GENERATED", Kind.generated)
    ∷ (codes "GLOB", Kind.like_kw)
    ∷ (codes "GROUP", Kind.group)
    ∷ (codes "GROUPS", Kind.groups)
    ∷ (codes "HAVING", Kind.having)
    ∷ (codes "IF", Kind.if_kw)
    ∷ (codes "IGNORE", Kind.ignore)
    ∷ (codes "IMMEDIATE", Kind.immediate)
    ∷ (codes "IN", Kind.in_kw)
    ∷ (codes "INDEX", Kind.index)
    ∷ (codes "INDEXED", Kind.indexed)
    ∷ (codes "INITIALLY", Kind.initially)
    ∷ (codes "INNER", Kind.join_kw)
    ∷ (codes "INSERT", Kind.insert)
    ∷ (codes "INSTEAD", Kind.instead)
    ∷ (codes "INTERSECT", Kind.intersect)
    ∷ (codes "INTO", Kind.into)
    ∷ (codes "IS", Kind.is)
    ∷ (codes "ISNULL", Kind.isnull)
    ∷ (codes "JOIN", Kind.join)
    ∷ (codes "KEY", Kind.key)
    ∷ (codes "LAST", Kind.last)
    ∷ (codes "LEFT", Kind.join_kw)
    ∷ (codes "LIKE", Kind.like_kw)
    ∷ (codes "LIMIT", Kind.limit)
    ∷ (codes "MATCH", Kind.match)
    ∷ (codes "MATERIALIZED", Kind.materialized)
    ∷ (codes "NATURAL", Kind.join_kw)
    ∷ (codes "NO", Kind.no_kw)
    ∷ (codes "NOT", Kind.not)
    ∷ (codes "NOTHING", Kind.nothing)
    ∷ (codes "NOTNULL", Kind.notnull)
    ∷ (codes "NULL", Kind.null)
    ∷ (codes "NULLS", Kind.nulls)
    ∷ (codes "OF", Kind.of)
    ∷ (codes "OFFSET", Kind.offset)
    ∷ (codes "ON", Kind.on)
    ∷ (codes "OR", Kind.or)
    ∷ (codes "ORDER", Kind.order)
    ∷ (codes "OTHERS", Kind.others)
    ∷ (codes "OUTER", Kind.join_kw)
    ∷ (codes "OVER", Kind.over)
    ∷ (codes "PARTITION", Kind.partition)
    ∷ (codes "PLAN", Kind.plan)
    ∷ (codes "PRAGMA", Kind.pragma)
    ∷ (codes "PRECEDING", Kind.preceding)
    ∷ (codes "PRIMARY", Kind.primary)
    ∷ (codes "QUERY", Kind.query)
    ∷ (codes "RAISE", Kind.raise)
    ∷ (codes "RANGE", Kind.range)
    ∷ (codes "RECURSIVE", Kind.recursive)
    ∷ (codes "REFERENCES", Kind.references)
    ∷ (codes "REGEXP", Kind.like_kw)
    ∷ (codes "REINDEX", Kind.reindex)
    ∷ (codes "RELEASE", Kind.release)
    ∷ (codes "RENAME", Kind.rename)
    ∷ (codes "REPLACE", Kind.replace)
    ∷ (codes "RESTRICT", Kind.restrict)
    ∷ (codes "RETURNING", Kind.returning)
    ∷ (codes "RIGHT", Kind.join_kw)
    ∷ (codes "ROLLBACK", Kind.rollback)
    ∷ (codes "ROW", Kind.row)
    ∷ (codes "ROWS", Kind.rows)
    ∷ (codes "SAVEPOINT", Kind.savepoint)
    ∷ (codes "SELECT", Kind.select)
    ∷ (codes "SET", Kind.set)
    ∷ (codes "TABLE", Kind.table)
    ∷ (codes "TEMP", Kind.temp)
    ∷ (codes "TEMPORARY", Kind.temp)
    ∷ (codes "THEN", Kind.then_kw)
    ∷ (codes "TIES", Kind.ties)
    ∷ (codes "TO", Kind.to)
    ∷ (codes "TRANSACTION", Kind.transaction)
    ∷ (codes "TRIGGER", Kind.trigger)
    ∷ (codes "UNBOUNDED", Kind.unbounded)
    ∷ (codes "UNION", Kind.union)
    ∷ (codes "UNIQUE", Kind.unique)
    ∷ (codes "UPDATE", Kind.update)
    ∷ (codes "USING", Kind.using)
    ∷ (codes "VACUUM", Kind.vacuum)
    ∷ (codes "VALUES", Kind.values)
    ∷ (codes "VIEW", Kind.view)
    ∷ (codes "VIRTUAL", Kind.virtual)
    ∷ (codes "WHEN", Kind.when)
    ∷ (codes "WHERE", Kind.where_kw)
    ∷ (codes "WINDOW", Kind.window)
    ∷ (codes "WITH", Kind.with)
    ∷ (codes "WITHOUT", Kind.without)
    ∷ []

-- `fallback`, the Kind-indexed form of `fallbackSet`.
unfoldable pub can_fallback : Kind → Bool
can_fallback Kind.abort = true
can_fallback Kind.action = true
can_fallback Kind.after = true
can_fallback Kind.analyze = true
can_fallback Kind.asc = true
can_fallback Kind.attach = true
can_fallback Kind.before = true
can_fallback Kind.begin = true
can_fallback Kind.by = true
can_fallback Kind.cascade = true
can_fallback Kind.cast = true
can_fallback Kind.column_kw = true
can_fallback Kind.conflict = true
can_fallback Kind.database = true
can_fallback Kind.deferred = true
can_fallback Kind.desc = true
can_fallback Kind.detach = true
can_fallback Kind.do_kw = true
can_fallback Kind.each = true
can_fallback Kind.end = true
can_fallback Kind.exclusive = true
can_fallback Kind.explain = true
can_fallback Kind.fail = true
can_fallback Kind.for = true
can_fallback Kind.ignore = true
can_fallback Kind.immediate = true
can_fallback Kind.initially = true
can_fallback Kind.instead = true
can_fallback Kind.like_kw = true
can_fallback Kind.match = true
can_fallback Kind.no_kw = true
can_fallback Kind.plan = true
can_fallback Kind.query = true
can_fallback Kind.key = true
can_fallback Kind.of = true
can_fallback Kind.offset = true
can_fallback Kind.pragma = true
can_fallback Kind.raise = true
can_fallback Kind.recursive = true
can_fallback Kind.release = true
can_fallback Kind.replace = true
can_fallback Kind.restrict = true
can_fallback Kind.row = true
can_fallback Kind.rows = true
can_fallback Kind.rollback = true
can_fallback Kind.savepoint = true
can_fallback Kind.temp = true
can_fallback Kind.trigger = true
can_fallback Kind.vacuum = true
can_fallback Kind.view = true
can_fallback Kind.virtual = true
can_fallback Kind.with = true
can_fallback Kind.without = true
can_fallback Kind.nulls = true
can_fallback Kind.first = true
can_fallback Kind.last = true
can_fallback Kind.current = true
can_fallback Kind.following = true
can_fallback Kind.partition = true
can_fallback Kind.preceding = true
can_fallback Kind.range = true
can_fallback Kind.unbounded = true
can_fallback Kind.exclude = true
can_fallback Kind.groups = true
can_fallback Kind.others = true
can_fallback Kind.ties = true
can_fallback Kind.generated = true
can_fallback Kind.always = true
can_fallback Kind.materialized = true
can_fallback Kind.reindex = true
can_fallback Kind.rename = true
can_fallback Kind.ctime_kw = true
can_fallback Kind.if_kw = true
can_fallback _ = false

unfoldable pub is_plain_id : Kind → Bool
unfolding can_fallback
is_plain_id k = k == Kind.id || can_fallback k

unfoldable pub is_id : Kind → Bool
unfolding can_fallback
is_id k = k == Kind.id || k == Kind.indexed || can_fallback k

unfoldable pub is_ids : Kind → Bool
unfolding can_fallback
is_ids k = k == Kind.id || k == Kind.string || can_fallback k

unfoldable pub is_idj : Kind → Bool
unfolding can_fallback
is_idj k = k == Kind.id || k == Kind.indexed || k == Kind.join_kw || can_fallback k

unfoldable pub is_name : Kind → Bool
unfolding is_idj
is_name k = is_idj k || k == Kind.string
