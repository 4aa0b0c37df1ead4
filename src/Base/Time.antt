-- ===== src/Base/Time.antt =====
-- `time.Time`: the signed distance from the zero time, in nanoseconds.
use mathlib.Core.Bool.{Bool}
use nudge.Base.Int.{eqb_ℤ, ltb_ℤ, pos, ℤ}

abbrev pub Time : Type 0
Time = ℤ

-- `IsZero`.
abbrev pub is_zero : Time → Bool
is_zero t = eqb_ℤ t (pos 0)

-- `t.Before(u)`.
abbrev pub before : Time → Time → Bool
before t u = ltb_ℤ t u
