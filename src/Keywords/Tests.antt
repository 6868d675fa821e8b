-- ===== src/Keywords/Tests.antt =====
-- `Lookup` on inputs that can be followed in the source.
use meyer.Base.{refl, ◌≡◌}
use meyer.Token.{Kind}
use meyer.Keywords.{codes}
use meyer.Keywords.Table.{lookup, scan_rows, keyword_shape}
use meyer.Keywords.Lookup.{keyword_kind, lookup-keyword_kind}

lookup_mixed_case : lookup (codes "seLect") ≡ Kind.select
unfolding lookup scan_rows keyword_shape
lookup_mixed_case = refl

lookup_backquote : lookup (codes "`ND") ≡ Kind.id
unfolding lookup scan_rows keyword_shape
lookup_backquote = refl

lookup-keyword_kind_example : lookup (codes "Temporary") ≡ keyword_kind (codes "Temporary")
lookup-keyword_kind_example = lookup-keyword_kind (codes "Temporary")
