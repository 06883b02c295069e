-- ===== src/BailoutGuard/Hazards.antt =====
-- Where the bookkeeping of src/zend/bailout_guard.rs does not hold.
use ext_php_rs.Prelude.{
  ℕ, zero, suc, Bool, List, refl, ◌+◌, ◌∷◌, [], ◌++◌, ◌≡◌, arith, length, length-append, true,
}
use ext_php_rs.BailoutGuard.{World, new, drop, silence, deactivate, cleanups, run_bailout_cleanups}
use ext_php_rs.BailoutGuard.Counts.{
  count, count-append, count_active, count_active-append, count-cleanups,
}

length-deactivate : (s : List (ℕ × Bool)) (i : ℕ) → length (deactivate s i) ≡ length s
length-deactivate [] i = refl
length-deactivate ((p, a) ∷ s) zero = refl
length-deactivate ((p, a) ∷ s) (suc i) = rw (length-deactivate s i)

-- A frame that owns a guard and goes on after a bailout that was caught below it: the value is dropped
-- by the cleanups and once more by the guard, two drops more than before for an address the stack did
-- not hold active.
pub surviving_guard_dropped_twice :
    (w : World)
    → count_active w.next w.stack ≡ 0
    → let (g, w') = new w in
      count w.next (drop g (run_bailout_cleanups w')).dropped ≡ count w.next w.dropped + 2
unfolding new run_bailout_cleanups drop silence
surviving_guard_dropped_twice w h =
    let s = w.stack ++ (w.next, true) ∷ [] in
    ground (
      arith,
      count-append w.next (w.dropped ++ cleanups s) (w.next ∷ []),
      count-append w.next w.dropped (cleanups s),
      count-cleanups w.next s,
      count_active-append w.next w.stack ((w.next, true) ∷ []),
    )

-- A guard that is made and dropped leaves an inactive entry behind: the stack is one longer.
pub length-stack-drop :
    (w : World) → let (g, w') = new w in length (drop g w').stack ≡ length w.stack + 1
unfolding new drop silence
length-stack-drop w = ground (
  arith,
  length-append w.stack ((w.next, true) ∷ []),
  length-deactivate (w.stack ++ (w.next, true) ∷ []) (length w.stack),
)
