-- ===== src/Store/ZSet/Ranges.antt =====
-- crates/gamestore-engine/src/store.rs: normalize_range.
use game_store.Prelude.{ℕ, Option, none, some, if◌then◌else◌}
use game_store.Prelude.Int.{ℤ, pos_part, ltbℤ}

abbrev between_ranks : ℤ → ℤ → Option (ℕ × ℕ)
between_ranks lo hi = if ltbℤ hi lo then none else some (pos_part lo, pos_part hi)
