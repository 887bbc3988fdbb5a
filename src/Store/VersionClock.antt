-- ===== src/Store/VersionClock.antt =====
-- crates/gamestore-engine/src/store.rs: next_version.
pub mod Threads
pub mod Alone
use game_store.Prelude.{ℕ, ◌+◌, ◌%◌, ◌^◌, ◌<◌, ◌≤◌, max, refl, ◌≡◌, arith}
use game_store.Engine.Error.{ok}
use game_store.Store.Base.{Host, Store, next_version, now_micros}

module _ ⦃h : Host⦄ where
  -- While the version clock is not at its end, next_version returns a version above the clock,
  -- whatever the wall clock says, and leaves the clock at that version; so versions strictly
  -- increase.
  pub next_version_increases :
      (s : Store h) (v : ℕ)
      → s.version_clock + 1 < 2 ^ 64
      → (next_version s).0 ≡ ok v
      → (s.version_clock < v) × ((next_version s).1.version_clock ≡ v)
  unfolding next_version now_micros
  next_version_increases s v room e = ground arith

  -- What the wall clock reads next, in microseconds.
  abbrev pub micros : Store h → ℕ
  micros s = h.wall s.readings % 2 ^ 64

  -- While the version clock is not at its end, next_version returns the least version that is
  -- above the clock and not below the microseconds of the wall clock.
  pub next_version_least :
      (s : Store h)
      → s.version_clock + 1 < 2 ^ 64
      → (v : ℕ) × ((next_version s).0 ≡ ok v)
        × (s.version_clock < v)
        × (micros s ≤ v)
        × ((w : ℕ) → s.version_clock < w → micros s ≤ w → v ≤ w)
  unfolding next_version now_micros
  next_version_least s room = (
    max ((s.version_clock + 1) % 2 ^ 64) (micros s),
    refl,
    omega arith,
    omega arith,
    λ w above late. omega arith,
  )
