-- ===== src/Tests/Threads.antt =====
-- Tests of the version clock in two threads.
use game_store.Prelude.{[], ◌∷◌, refl, arith}
use game_store.Store.VersionClock.Alone.{Alone}
use game_store.Store.VersionClock.Threads.{
  Clock, idle, loaded, computed, candidate, moved, Reach, here, next, load, compute, exchange,
  retry, fresh_clock, IsDescending, issued-IsDescending,
}

-- Both threads load the clock, and the second has to start again.
abbrev both_loaded : Clock
both_loaded = moved 1 (loaded 5) (moved 0 (loaded 5) (fresh_clock 5))

abbrev both_computed : Clock
both_computed =
    moved 1 (computed 5 (candidate 5 9)) (moved 0 (computed 5 (candidate 5 9)) both_loaded)

abbrev first_done : Clock
first_done = record (moved 0 idle both_computed) {
  clock = candidate 5 9;
  issued = candidate 5 9 ∷ [];
}

abbrev started_again : Clock
started_again = moved 1 (computed 9 (candidate 9 9)) (moved 1 (loaded 9) (moved 1 idle first_done))

abbrev both_done : Clock
both_done = record (moved 1 idle started_again) {
  clock = candidate 9 9;
  issued = candidate 9 9 ∷ 9 ∷ [];
}

both_done_reached : Reach (fresh_clock 5) both_done
both_done_reached =
    next
      (next
        (next
          (next
            (next
              (next
                (next
                  (next (next here (load (fresh_clock 5) 0 refl))
                    (load (moved 0 (loaded 5) (fresh_clock 5)) 1 refl))
                  (compute both_loaded 0 5 9 refl))
                (compute (moved 0 (computed 5 (candidate 5 9)) both_loaded) 1 5 9 refl))
              (exchange both_computed 0 5 9 refl refl))
            (retry first_done 1 5 9 refl (λ e. omega arith)))
          (load (moved 1 idle first_done) 1 refl))
        (compute (moved 1 (loaded 9) (moved 1 idle first_done)) 1 9 9 refl))
      (exchange started_again 1 9 10 refl refl)

issued-IsDescending_example : IsDescending (10 ∷ 9 ∷ [])
issued-IsDescending_example =
    issued-IsDescending {d = both_done} 5 (omega arith) both_done_reached
      (omega arith, (omega arith, tt))

-- One thread, five steps.
abbrev returned_once : Clock
returned_once =
    record (moved 0 idle
      (moved 0 (computed 5 (candidate 5 9)) (moved 0 (loaded 5) (fresh_clock 5)))) {
        clock = candidate 5 9;
        issued = candidate 5 9 ∷ [];
      }
