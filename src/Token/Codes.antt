-- ===== src/Token/Codes.antt =====
-- The values that `iota` gives the kinds, and the equality test that compares them.
use meyer.Base.{
  ℕ, ◌≡◌, refl, ap, sym, ◌∙◌, ◌↔◌, true, List, [], ◌∷◌, get_or, Eq, nat_beq, nat_beq_iff,
}
use meyer.Token.Kinds.{Kind}

abbrev pub code : Kind → ℕ
code Kind.eof = 0
code Kind.space = 1
code Kind.comment = 2
code Kind.illegal = 3
code Kind.id = 4
code Kind.string = 5
code Kind.integer = 6
code Kind.float = 7
code Kind.blob = 8
code Kind.variable = 9
code Kind.qnumber = 10
code Kind.lp = 11
code Kind.rp = 12
code Kind.semi = 13
code Kind.comma = 14
code Kind.dot = 15
code Kind.plus = 16
code Kind.minus = 17
code Kind.star = 18
code Kind.slash = 19
code Kind.rem = 20
code Kind.eq = 21
code Kind.ne = 22
code Kind.lt = 23
code Kind.le = 24
code Kind.gt = 25
code Kind.ge = 26
code Kind.lshift = 27
code Kind.rshift = 28
code Kind.bitand = 29
code Kind.bitor = 30
code Kind.bitnot = 31
code Kind.concat = 32
code Kind.ptr = 33
code Kind.abort = 34
code Kind.action = 35
code Kind.add = 36
code Kind.after = 37
code Kind.all = 38
code Kind.alter = 39
code Kind.always = 40
code Kind.analyze = 41
code Kind.and = 42
code Kind.as_kw = 43
code Kind.asc = 44
code Kind.attach = 45
code Kind.autoincr = 46
code Kind.before = 47
code Kind.begin = 48
code Kind.between = 49
code Kind.by = 50
code Kind.cascade = 51
code Kind.case = 52
code Kind.cast = 53
code Kind.check = 54
code Kind.collate = 55
code Kind.column_kw = 56
code Kind.commit = 57
code Kind.conflict = 58
code Kind.constraint = 59
code Kind.create = 60
code Kind.current = 61
code Kind.ctime_kw = 62
code Kind.database = 63
code Kind.default = 64
code Kind.deferred = 65
code Kind.deferrable = 66
code Kind.delete = 67
code Kind.desc = 68
code Kind.detach = 69
code Kind.distinct = 70
code Kind.do_kw = 71
code Kind.drop = 72
code Kind.end = 73
code Kind.each = 74
code Kind.else_kw = 75
code Kind.escape = 76
code Kind.except = 77
code Kind.exclusive = 78
code Kind.exclude = 79
code Kind.exists = 80
code Kind.explain = 81
code Kind.fail = 82
code Kind.filter = 83
code Kind.first = 84
code Kind.following = 85
code Kind.for = 86
code Kind.foreign = 87
code Kind.from = 88
code Kind.generated = 89
code Kind.group = 90
code Kind.groups = 91
code Kind.having = 92
code Kind.if_kw = 93
code Kind.ignore = 94
code Kind.immediate = 95
code Kind.in_kw = 96
code Kind.index = 97
code Kind.indexed = 98
code Kind.initially = 99
code Kind.insert = 100
code Kind.instead = 101
code Kind.intersect = 102
code Kind.into = 103
code Kind.is = 104
code Kind.isnull = 105
code Kind.join = 106
code Kind.join_kw = 107
code Kind.key = 108
code Kind.last = 109
code Kind.like_kw = 110
code Kind.limit = 111
code Kind.match = 112
code Kind.materialized = 113
code Kind.no_kw = 114
code Kind.not = 115
code Kind.nothing = 116
code Kind.notnull = 117
code Kind.null = 118
code Kind.nulls = 119
code Kind.of = 120
code Kind.offset = 121
code Kind.on = 122
code Kind.or = 123
code Kind.order = 124
code Kind.others = 125
code Kind.over = 126
code Kind.partition = 127
code Kind.plan = 128
code Kind.pragma = 129
code Kind.preceding = 130
code Kind.primary = 131
code Kind.query = 132
code Kind.raise = 133
code Kind.range = 134
code Kind.recursive = 135
code Kind.references = 136
code Kind.reindex = 137
code Kind.release = 138
code Kind.rename = 139
code Kind.replace = 140
code Kind.restrict = 141
code Kind.returning = 142
code Kind.rollback = 143
code Kind.row = 144
code Kind.rows = 145
code Kind.savepoint = 146
code Kind.select = 147
code Kind.set = 148
code Kind.table = 149
code Kind.temp = 150
code Kind.then_kw = 151
code Kind.ties = 152
code Kind.to = 153
code Kind.transaction = 154
code Kind.trigger = 155
code Kind.unbounded = 156
code Kind.union = 157
code Kind.unique = 158
code Kind.update = 159
code Kind.using = 160
code Kind.vacuum = 161
code Kind.values = 162
code Kind.view = 163
code Kind.virtual = 164
code Kind.when = 165
code Kind.where_kw = 166
code Kind.window = 167
code Kind.with = 168
code Kind.without = 169

kinds : List Kind
kinds =
    Kind.eof ∷ Kind.space ∷ Kind.comment ∷ Kind.illegal ∷ Kind.id ∷ Kind.string ∷ Kind.integer
    ∷ Kind.float ∷ Kind.blob ∷ Kind.variable ∷ Kind.qnumber ∷ Kind.lp ∷ Kind.rp ∷ Kind.semi
    ∷ Kind.comma ∷ Kind.dot ∷ Kind.plus ∷ Kind.minus ∷ Kind.star ∷ Kind.slash ∷ Kind.rem ∷ Kind.eq
    ∷ Kind.ne ∷ Kind.lt ∷ Kind.le ∷ Kind.gt ∷ Kind.ge ∷ Kind.lshift ∷ Kind.rshift ∷ Kind.bitand
    ∷ Kind.bitor ∷ Kind.bitnot ∷ Kind.concat ∷ Kind.ptr ∷ Kind.abort ∷ Kind.action ∷ Kind.add
    ∷ Kind.after ∷ Kind.all ∷ Kind.alter ∷ Kind.always ∷ Kind.analyze ∷ Kind.and ∷ Kind.as_kw
    ∷ Kind.asc ∷ Kind.attach ∷ Kind.autoincr ∷ Kind.before ∷ Kind.begin ∷ Kind.between ∷ Kind.by
    ∷ Kind.cascade ∷ Kind.case ∷ Kind.cast ∷ Kind.check ∷ Kind.collate ∷ Kind.column_kw
    ∷ Kind.commit ∷ Kind.conflict ∷ Kind.constraint ∷ Kind.create ∷ Kind.current ∷ Kind.ctime_kw
    ∷ Kind.database ∷ Kind.default ∷ Kind.deferred ∷ Kind.deferrable ∷ Kind.delete ∷ Kind.desc
    ∷ Kind.detach ∷ Kind.distinct ∷ Kind.do_kw ∷ Kind.drop ∷ Kind.end ∷ Kind.each ∷ Kind.else_kw
    ∷ Kind.escape ∷ Kind.except ∷ Kind.exclusive ∷ Kind.exclude ∷ Kind.exists ∷ Kind.explain
    ∷ Kind.fail ∷ Kind.filter ∷ Kind.first ∷ Kind.following ∷ Kind.for ∷ Kind.foreign ∷ Kind.from
    ∷ Kind.generated ∷ Kind.group ∷ Kind.groups ∷ Kind.having ∷ Kind.if_kw ∷ Kind.ignore
    ∷ Kind.immediate ∷ Kind.in_kw ∷ Kind.index ∷ Kind.indexed ∷ Kind.initially ∷ Kind.insert
    ∷ Kind.instead ∷ Kind.intersect ∷ Kind.into ∷ Kind.is ∷ Kind.isnull ∷ Kind.join ∷ Kind.join_kw
    ∷ Kind.key ∷ Kind.last ∷ Kind.like_kw ∷ Kind.limit ∷ Kind.match ∷ Kind.materialized ∷ Kind.no_kw
    ∷ Kind.not ∷ Kind.nothing ∷ Kind.notnull ∷ Kind.null ∷ Kind.nulls ∷ Kind.of ∷ Kind.offset
    ∷ Kind.on ∷ Kind.or ∷ Kind.order ∷ Kind.others ∷ Kind.over ∷ Kind.partition ∷ Kind.plan
    ∷ Kind.pragma ∷ Kind.preceding ∷ Kind.primary ∷ Kind.query ∷ Kind.raise ∷ Kind.range
    ∷ Kind.recursive ∷ Kind.references ∷ Kind.reindex ∷ Kind.release ∷ Kind.rename ∷ Kind.replace
    ∷ Kind.restrict ∷ Kind.returning ∷ Kind.rollback ∷ Kind.row ∷ Kind.rows ∷ Kind.savepoint
    ∷ Kind.select ∷ Kind.set ∷ Kind.table ∷ Kind.temp ∷ Kind.then_kw ∷ Kind.ties ∷ Kind.to
    ∷ Kind.transaction ∷ Kind.trigger ∷ Kind.unbounded ∷ Kind.union ∷ Kind.unique ∷ Kind.update
    ∷ Kind.using ∷ Kind.vacuum ∷ Kind.values ∷ Kind.view ∷ Kind.virtual ∷ Kind.when ∷ Kind.where_kw
    ∷ Kind.window ∷ Kind.with ∷ Kind.without ∷ []

of_code : ℕ → Kind
unfolding kinds
of_code n = get_or kinds n Kind.eof

of_code-code : (k : Kind) → of_code (code k) ≡ k
unfolding of_code
of_code-code Kind.eof = refl
of_code-code _ = refl

pub code-injective : (j k : Kind) → code j ≡ code k → j ≡ k
code-injective j k h = sym (of_code-code j) ∙ ap of_code h ∙ of_code-code k

pub kind_beq_iff : (j k : Kind) → (nat_beq (code j) (code k) ≡ true) ↔ (j ≡ k)
kind_beq_iff j k = (
  λ h. code-injective j k ((nat_beq_iff (code j) (code k)).0 h),
  λ e. (nat_beq_iff (code j) (code k)).1 (ap code e),
)

instance abbrev pub kind_eq : Eq Kind
kind_eq = record { same = λ j k. nat_beq (code j) (code k); same_iff = kind_beq_iff }
