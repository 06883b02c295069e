-- ===== src/TryCatch.antt =====
-- src/zend/try_catch.rs with the two C functions of src/wrapper.c that it calls: a closure runs
-- behind a bailout point, and a Rust panic crosses the C frames as a value. `S` is the state of PHP.
use ext_php_rs.Prelude.{◌≡◌, refl, Bool, true, false, Option, none, some}

-- How a Rust call ends: it returns, it jumps to the last bailout point, or it panics.
pub data Outcome (S A : Type 0) : Type 0 where
  returned : A → S → Outcome S A
  bailed : S → Outcome S A
  panicked : S → Outcome S A

-- `std::thread::Result<R>`
pub data Thread (A : Type 0) : Type 0 where
  ok : A → Thread A
  panic : Thread A

-- `Result<R, CatchError>`
pub data Caught (A : Type 0) : Type 0 where
  done : A → Caught A
  catch_error : Caught A

module _ {S A : Type 0} where
  -- `catch_unwind` turns a panic into a value. A bailout jumps over this frame.
  unfoldable pub panic_wrapper : (S → Outcome S A) → S → Outcome S (Thread A)
  panic_wrapper func s = elim (func s) [
    | returned a s' ↦ returned (ok a) s'
    | bailed s' ↦ bailed s'
    | panicked s' ↦ returned panic s'
  ]

  -- `zend_try { *result = callback(ctx); } zend_catch { has_bailout = true; }`: what `result` holds,
  -- and whether there was a bailout.
  unfoldable pub ext_php_rs_zend_try_catch :
      (S → Outcome S (Thread A)) → S → Option (Thread A) × Bool × S
  ext_php_rs_zend_try_catch callback s = elim (callback s) [
    | returned r s' ↦ (some r, false, s')
    | bailed s' ↦ (none, true, s')
    | panicked s' ↦ (none, true, s')
  ]

  -- `resume_unwind` goes on with a panic.
  unfoldable pub unbox : Option (Thread A) → Bool → S → Outcome S (Caught A)
  unbox none has_bailout s = returned catch_error s
  unbox (some r) true s = returned catch_error s
  unbox (some (ok a)) false s = returned (done a) s
  unbox (some panic) false s = panicked s

  -- `try_catch_first` differs in how C sets the bailout point up, which the model does not hold.
  unfoldable pub try_catch : (S → Outcome S A) → S → Outcome S (Caught A)
  unfolding panic_wrapper ext_php_rs_zend_try_catch unbox
  try_catch func s =
      let (panic_ptr, has_bailout, s') = ext_php_rs_zend_try_catch (panic_wrapper func) s in
      unbox panic_ptr has_bailout s'

  -- What `try_catch` makes of each ending of the closure.
  unfoldable pub caught : Outcome S A → Outcome S (Caught A)
  caught (returned a s) = returned (done a) s
  caught (bailed s) = returned catch_error s
  caught (panicked s) = panicked s

  pub try_catch-caught : (func : S → Outcome S A) (s : S) → try_catch func s ≡ caught (func s)
  unfolding try_catch panic_wrapper ext_php_rs_zend_try_catch unbox caught
  try_catch-caught func s =
      elim (func s)
        as (λ o.
          unbox (ext_php_rs_zend_try_catch (λ t. panic_wrapper (λ u. o) t) s).0
            (ext_php_rs_zend_try_catch (λ t. panic_wrapper (λ u. o) t) s).1
            (ext_php_rs_zend_try_catch (λ t. panic_wrapper (λ u. o) t) s).2
          ≡ caught o) [ returned a s' ↦ refl | bailed s' ↦ refl | panicked s' ↦ refl ]
