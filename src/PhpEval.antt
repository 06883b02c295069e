-- ===== src/PhpEval.antt =====
-- src/php_eval.rs: embedded PHP code runs with error reporting off, behind a bailout point. PHP's
-- compiler and its executor are parameters; an array of opcodes is known by a number.
pub mod Strip
pub mod Restore
use ext_php_rs.Prelude.{
  ℕ, ◌+◌, Bool, true, false, Option, none, some, List, [], ◌∷◌, ◌++◌, Bytes, leb, text_eq,
  if◌then◌else◌, length,
}
use ext_php_rs.Text.Str.{strip_prefix}
use ext_php_rs.Text.Ascii.{is_ascii_whitespace, eq_ignore_ascii_case, trim_ascii_start}
use ext_php_rs.TryCatch.{Outcome, returned, bailed, panicked, done, catch_error, Caught, try_catch}

pub data PhpEvalError : Type 0 where
  missing_open_tag compilation_failed execution_failed bailout : PhpEvalError

-- `Result<(), PhpEvalError>`
pub data Answer : Type 0 where
  ok : Answer
  err : PhpEvalError → Answer

unfoldable pub strip_bom : Bytes → Bytes
strip_bom code = elim (strip_prefix (0xef ∷ 0xbb ∷ 0xbf ∷ []) code) [
  | some rest ↦ rest
  | none ↦ code
]

-- `code[pos..]` for the `position` of the first byte that is not white space.
unfoldable pub first_visible : Bytes → Option Bytes
first_visible [] = none
first_visible (c ∷ s) =
    let rest = first_visible s in if is_ascii_whitespace c then rest else some (c ∷ s)

-- `<?php`
abbrev pub open_tag : Bytes
open_tag = 60 ∷ 63 ∷ 112 ∷ 104 ∷ 112 ∷ []

-- The test of the length is the pattern of five bytes.
unfoldable pub without_tag : Bytes → Option Bytes
without_tag (a ∷ b ∷ c ∷ d ∷ e ∷ s) =
    let rest = trim_ascii_start s in
    if eq_ignore_ascii_case (a ∷ b ∷ c ∷ d ∷ e ∷ []) open_tag then some rest else none
without_tag _ = none

unfoldable pub strip_php_open_tag : Bytes → Option Bytes
unfolding first_visible without_tag
strip_php_open_tag code = elim (first_visible code) [
  | some trimmed ↦ without_tag trimmed
  | none ↦ none
]

-- What the code reads of the executor globals; the rest of PHP is `X`.
pub record Globals (X : Type 0) : Type 0 where
  pub error_reporting : ℕ
  pub exception : Bool
  pub rest : X

-- `freed` are the arrays of opcodes that the call destroyed and freed.
pub record State (X : Type 0) : Type 0 where
  pub globals : Globals X
  pub freed : List ℕ

-- How a call of PHP ends: it returns, or it jumps to the last bailout point.
pub data Call (X A : Type 0) : Type 0 where
  returns : A → Globals X → Call X A
  jumps : Globals X → Call X A

-- `V` is the zval that code returns.
module _ {X V : Type 0} (zend_compile_string : Bytes → Globals X → Call X (Option ℕ))
    (zend_execute : ℕ → Globals X → Call X V) (zval_ptr_dtor : V → Globals X → Call X Unit)
    (zend_destroy_static_vars : ℕ → Globals X → Call X Unit) where
  -- `destroy_op_array` and `efree`
  abbrev pub free : ℕ → State X → State X
  free op_array s = record s { freed = s.freed ++ op_array ∷ [] }

  -- The end of the function: behind `zend_end_try` a bailout is no longer caught, so it skips the rest.
  unfoldable pub release : ℕ → List ℕ → Call X Unit → Outcome (State X) Unit
  release op_array freed (returns u g) =
      returned u (free op_array (record { globals = g; freed = freed }))
  release op_array freed (jumps g) = bailed (record { globals = g; freed = freed })

  unfoldable pub drop_static_vars : ℕ → List ℕ → Call X Unit → Outcome (State X) Unit
  unfolding release
  drop_static_vars op_array freed (returns u g) =
      release op_array freed (zend_destroy_static_vars op_array g)
  drop_static_vars op_array freed (jumps g) = bailed (record { globals = g; freed = freed })

  -- `ext_php_rs_zend_execute` of src/wrapper.c: the value that the code returns is dropped, then the
  -- static variables are, and the array is freed; a bailout of the code frees the array and goes on.
  unfoldable pub after_execute : ℕ → List ℕ → Call X V → Outcome (State X) Unit
  unfolding drop_static_vars
  after_execute op_array freed (returns local_retval g) =
      drop_static_vars op_array freed (zval_ptr_dtor local_retval g)
  after_execute op_array freed (jumps g) =
      bailed (free op_array (record { globals = g; freed = freed }))

  unfoldable pub ext_php_rs_zend_execute : ℕ → State X → Outcome (State X) Unit
  unfolding after_execute
  ext_php_rs_zend_execute op_array s =
      after_execute op_array s.freed (zend_execute op_array s.globals)

  -- The closure's end: an exception is pending, or none is.
  unfoldable pub check_exception : Outcome (State X) Unit → Outcome (State X) Answer
  check_exception (returned u s) =
      if s.globals.exception then returned (err execution_failed) s else returned ok s
  check_exception (bailed s) = bailed s
  check_exception (panicked s) = panicked s

  unfoldable pub run_closure : Bytes → State X → Outcome (State X) Answer
  unfolding ext_php_rs_zend_execute check_exception
  run_closure source s = elim (zend_compile_string source s.globals) [
    | returns none g ↦ returned (err compilation_failed) (record s { globals = g })
    | returns (some op_array) g ↦
        check_exception (ext_php_rs_zend_execute op_array (record s { globals = g }))
    | jumps g ↦ bailed (record s { globals = g })
  ]

  unfoldable pub set_error_reporting : ℕ → State X → State X
  set_error_reporting level s = record s { globals = record s.globals { error_reporting = level } }

  -- `error_reporting` is put back, and the two results become one.
  unfoldable pub restore : ℕ → Outcome (State X) (Caught Answer) → Outcome (State X) Answer
  unfolding set_error_reporting
  restore level (returned (done inner) s) = returned inner (set_error_reporting level s)
  restore level (returned catch_error s) = returned (err bailout) (set_error_reporting level s)
  restore level (bailed s) = bailed s
  restore level (panicked s) = panicked s

  unfoldable pub execute_source : Bytes → State X → Outcome (State X) Answer
  unfolding restore set_error_reporting run_closure
  execute_source [] s = returned ok s
  execute_source (c ∷ code) s =
      restore s.globals.error_reporting
        (try_catch (run_closure (c ∷ code)) (set_error_reporting 0 s))

  unfoldable pub execute : Bytes → State X → Outcome (State X) Answer
  unfolding strip_bom strip_php_open_tag execute_source
  execute code s = elim (strip_php_open_tag (strip_bom code)) [
    | some source ↦ execute_source source s
    | none ↦ returned (err missing_open_tag) s
  ]
