-- ===== src/Config.antt =====
-- config.py: the bounded settings. `parsed` is what `int` makes of the variable, `none` where it is
-- not set or no number; a negative number is below every minimum, like 0.
use ahmed_agent.Base.{ℕ, ◌/◌, Option, none, some, leb, min, max, if◌then◌else◌}

abbrev pub or_default : ℕ → Option ℕ → ℕ
or_default default none = default
or_default default (some value) = value

unfoldable pub bounded_int : Option ℕ → ℕ → ℕ → ℕ → ℕ
bounded_int parsed default minimum maximum = max minimum (min (or_default default parsed) maximum)

unfoldable pub chunk_size : Option ℕ → ℕ
unfolding bounded_int
chunk_size parsed = bounded_int parsed 1200 200 10000

-- The overlap, lowered where it is not smaller than the chunk.
unfoldable pub chunk_overlap : Option ℕ → ℕ → ℕ
unfolding bounded_int
chunk_overlap parsed size =
    let overlap = bounded_int parsed 200 0 2000 in if leb size overlap then size / 5 else overlap
