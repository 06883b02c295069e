-- ===== src/PhpEval/Restore.antt =====
-- What src/php_eval.rs leaves behind, however the embedded code ends.
use ext_php_rs.Prelude.{
  ℕ, true, false, Option, none, some, List, [], ◌∷◌, ◌++◌, Bytes, ◌≡◌, refl, if◌then◌else◌,
}
use ext_php_rs.TryCatch.{Outcome, returned, bailed, try_catch-caught, caught}
use ext_php_rs.PhpEval.{
  missing_open_tag, compilation_failed, execution_failed, bailout, Answer, ok, err, strip_bom,
  strip_php_open_tag, Globals, State, Call, returns, jumps, ext_php_rs_zend_execute, release,
  drop_static_vars, after_execute, check_exception, run_closure, set_error_reporting, restore,
  execute_source, execute,
}

module _ {X V : Type 0} (zend_compile_string : Bytes → Globals X → Call X (Option ℕ))
    (zend_execute : ℕ → Globals X → Call X V) (zval_ptr_dtor : V → Globals X → Call X Unit)
    (zend_destroy_static_vars : ℕ → Globals X → Call X Unit) where
  -- One call of PHP and then another, if the first returns.
  abbrev pub chained : Call X Unit → (Globals X → Call X Unit) → Call X Unit
  chained (returns u g) next = next g
  chained (jumps g) next = jumps g

  -- The answer, PHP's globals before the level is restored, and the arrays of opcodes freed so far.
  abbrev pub Judgement : Type 0
  Judgement = Answer × Globals X × List ℕ

  -- The code returned, and what drops its value and its static variables returns or jumps. Only a jump
  -- leaves the array of opcodes as it is.
  abbrev pub cleaned : List ℕ → ℕ → Call X Unit → Judgement
  cleaned freed op (returns u g) =
      ((if g.exception then err execution_failed else ok), g, freed ++ op ∷ [])
  cleaned freed op (jumps g) = (err bailout, g, freed)

  abbrev pub ended : List ℕ → ℕ → Call X V → Judgement
  ended freed op (returns v g) =
      cleaned freed op (chained (zval_ptr_dtor v g) (zend_destroy_static_vars op))
  ended freed op (jumps g) = (err bailout, g, freed ++ op ∷ [])

  abbrev pub judged : List ℕ → Call X (Option ℕ) → Judgement
  judged freed (returns none g) = (err compilation_failed, g, freed)
  judged freed (returns (some op_array) g) = ended freed op_array (zend_execute op_array g)
  judged freed (jumps g) = (err bailout, g, freed)

  -- How a call ends that returned, as the state that it leaves.
  abbrev pub left : ℕ → Judgement → Outcome (State X) Answer
  left level (answer, g, freed) =
      returned answer (record { globals = record g { error_reporting = level }; freed = freed })

  -- What `execute_source` makes of the end of the call of C.
  abbrev closing : ℕ → Outcome (State X) Unit → Outcome (State X) Answer
  closing level o =
      restore zend_compile_string zend_execute zval_ptr_dtor zend_destroy_static_vars level (
        caught (
          check_exception zend_compile_string zend_execute zval_ptr_dtor zend_destroy_static_vars
            o))

  destroyed :
      (level : ℕ) (freed : List ℕ) (op : ℕ) (c : Call X Unit)
      → closing level (
          release zend_compile_string zend_execute zval_ptr_dtor zend_destroy_static_vars op freed
            c)
        ≡ left level (cleaned freed op c)
  unfolding restore caught check_exception set_error_reporting release
  destroyed level freed op (returns u g) =
      elim g.exception
        as (λ b.
          restore zend_compile_string zend_execute zval_ptr_dtor zend_destroy_static_vars level (
            caught (
              if b
              then returned (err execution_failed)
                  (record { globals = g; freed = freed ++ op ∷ [] })
              else returned ok (record { globals = g; freed = freed ++ op ∷ [] })))
          ≡ left level ((if b then err execution_failed else ok), g, freed ++ op ∷ [])) [
            | true ↦ refl
            | false ↦ refl
          ]
  destroyed level freed op (jumps g) = refl

  dropped :
      (level : ℕ) (freed : List ℕ) (op : ℕ) (c : Call X Unit)
      → closing level (
          drop_static_vars zend_compile_string zend_execute zval_ptr_dtor zend_destroy_static_vars
            op freed c)
        ≡ left level (cleaned freed op (chained c (zend_destroy_static_vars op)))
  unfolding restore caught check_exception set_error_reporting drop_static_vars
  dropped level freed op (returns u g) = destroyed level freed op (zend_destroy_static_vars op g)
  dropped level freed op (jumps g) = refl

  checked :
      (level : ℕ) (freed : List ℕ) (op : ℕ) (run : Call X V)
      → closing level (
          after_execute zend_compile_string zend_execute zval_ptr_dtor zend_destroy_static_vars op
            freed run)
        ≡ left level (ended freed op run)
  unfolding restore caught check_exception set_error_reporting after_execute
  checked level freed op (returns v g) = dropped level freed op (zval_ptr_dtor v g)
  checked level freed op (jumps g) = refl

  -- What a call leaves, by the code behind the tag.
  abbrev pub answered : Option Bytes → State X → Outcome (State X) Answer
  answered none s = returned (err missing_open_tag) s
  answered (some []) s = returned ok s
  answered (some (c ∷ source)) s =
      left s.globals.error_reporting (
        judged s.freed
          (zend_compile_string (c ∷ source) (record s.globals { error_reporting = 0 })))

  closed :
      (level : ℕ) (s : State X) (compiled : Call X (Option ℕ))
      → restore zend_compile_string zend_execute zval_ptr_dtor zend_destroy_static_vars level (
          caught (elim compiled [
            | returns none g ↦ returned (err compilation_failed) (record s { globals = g })
            | returns (some op_array) g ↦
                check_exception zend_compile_string zend_execute zval_ptr_dtor
                  zend_destroy_static_vars
                  (ext_php_rs_zend_execute zend_compile_string zend_execute zval_ptr_dtor
                    zend_destroy_static_vars op_array
                    (record s { globals = g }))
            | jumps g ↦ bailed (record s { globals = g })
          ]))
        ≡ left level (judged s.freed compiled)
  unfolding restore caught set_error_reporting ext_php_rs_zend_execute
  closed level s (returns none g) = refl
  closed level s (returns (some op_array) g) =
      checked level s.freed op_array (zend_execute op_array g)
  closed level s (jumps g) = refl

  executed :
      (c : ℕ) (source : Bytes) (s : State X)
      → execute_source zend_compile_string zend_execute zval_ptr_dtor zend_destroy_static_vars
          (c ∷ source)
          s
        ≡ answered (some (c ∷ source)) s
  unfolding execute_source run_closure set_error_reporting
  executed c source s =
      rw
        (try_catch-caught
          (run_closure zend_compile_string zend_execute zval_ptr_dtor zend_destroy_static_vars
            (c ∷ source))
          (set_error_reporting zend_compile_string zend_execute zval_ptr_dtor
            zend_destroy_static_vars 0 s))
        (closed s.globals.error_reporting s
          (zend_compile_string (c ∷ source) (record s.globals { error_reporting = 0 })))

  -- A call on embedded code always returns, and does what PHP's compiler and executor say about the
  -- code behind the open tag, which they see with error reporting off: the answer is the error of
  -- the first of them that fails, a bailout in either or in what drops the values is an error too,
  -- and with no code there is no call. The level of error reporting is what it was before. The array
  -- of opcodes is freed once, unless a bailout comes while the value that the code returned or its
  -- static variables are dropped: then it is not freed.
  pub execute-restores :
      (code : Bytes) (s : State X)
      → execute zend_compile_string zend_execute zval_ptr_dtor zend_destroy_static_vars code s
        ≡ answered (strip_php_open_tag (strip_bom code)) s
  unfolding execute execute_source
  execute-restores code s =
      elim (strip_php_open_tag (strip_bom code))
        as (λ o.
          elim o [
            | some source ↦
                execute_source zend_compile_string zend_execute zval_ptr_dtor
                  zend_destroy_static_vars source s
            | none ↦ returned (err missing_open_tag) s
          ]
          ≡ answered o s) [ none ↦ refl | some [] ↦ refl | some (c ∷ source) ↦ executed c source s ]
