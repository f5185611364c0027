-- ===== src/Sql.antt =====
-- SQL's COALESCE and NULLIF, and a statement that only changes rows.
use weiyeston.Base.{Bool, Option, none, some, if◌then◌else◌}

module _ {T : Type 0} where
  -- A statement whose only news is whether it failed.
  abbrev pub did : T → Option (Unit {0} × T)
  did t = some (tt, t)

module _ {A : Type 0} where
  -- COALESCE(a, b) on a column that may be null.
  abbrev pub coalesce : Option A → Option A → Option A
  coalesce (some a) b = some a
  coalesce none b = b

  -- COALESCE(NULLIF(a, zero), b), given whether `a` is the zero.
  abbrev pub unless_zero : Bool → A → A → A
  unless_zero is_zero a b = if is_zero then b else a
