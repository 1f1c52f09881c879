-- ===== src/Base/Time.antt =====
-- `time.Time`: an instant in nanoseconds after the zero time, shown at an offset from UTC, and the
-- reading of the monotonic clock if it has one, as what `time.Now` returns does.
use judgekit.Base.Int.{ℤ, pos, eq_int, lt_int}
use mathlib.Core.Bool.{Bool}
use mathlib.Core.Option.{Option, none, some}

pub record Time : Type 0 where
  pub instant : ℤ
  pub offset : ℤ
  pub monotonic : Option ℤ

-- `t.IsZero()`
abbrev pub is_zero : Time → Bool
is_zero t = eq_int t.instant (pos 0)

-- `a.Before(b)`: the monotonic clock decides if both times have a reading of it.
abbrev pub is_before : Time → Time → Bool
is_before a b = elim a.monotonic [
  | none ↦ lt_int a.instant b.instant
  | some m ↦ elim b.monotonic [ none ↦ lt_int a.instant b.instant | some n ↦ lt_int m n ]
]

-- `t.UTC()`, which drops the monotonic reading
abbrev pub utc : Time → Time
utc t = record t { offset = pos 0; monotonic = none }
