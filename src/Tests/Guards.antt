-- ===== src/Tests/Guards.antt =====
-- The theorems on src/zend/bailout_guard.rs at concrete inputs.
use ext_php_rs.Prelude.{◌+◌, [], ◌∷◌, List, ◌≡◌, arith, if◌then◌else◌, ltb}
use ext_php_rs.BailoutGuard.{
  BailoutGuard, World, Event, make, drop_guard, take_inner, bail_out, run, step, start, new, drop,
  into_inner,
}
use ext_php_rs.BailoutGuard.Counts.{count, fates}
use ext_php_rs.BailoutGuard.Once.{fates-run, bail_out_once}

-- Three values: the second is dropped, the oldest is moved out, the newest waits.
abbrev events : List Event
events = make ∷ make ∷ make ∷ drop_guard 1 ∷ take_inner 1 ∷ []

bail_out_once_example :
    count 2 (step bail_out (run events start)).world.dropped
      + count 2 (step bail_out (run events start)).world.taken
    ≡ 1
unfolding run step new into_inner drop
bail_out_once_example = bail_out_once events 2 (omega arith)

fates-run_example :
    fates (run events start).world 1 ≡ (if ltb 1 (run events start).world.next then 1 else 0)
fates-run_example = fates-run events 1

abbrev guard : BailoutGuard
guard = record { value = 2; index = 2 }

abbrev fresh : World
fresh = start.world
