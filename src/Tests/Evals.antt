-- ===== src/Tests/Evals.antt =====
-- The theorems on src/php_eval.rs at concrete inputs.
use ext_php_rs.Prelude.{ℕ, Bool, true, false, Option, some, [], ◌∷◌, Bytes, codes, ◌≡◌, refl, ◌↔◌}
use ext_php_rs.Text.Str.{strip_prefix}
use ext_php_rs.Text.Ascii.{trim_ascii_start}
use ext_php_rs.TryCatch.{returned, try_catch, panic_wrapper, ext_php_rs_zend_try_catch, unbox}
use ext_php_rs.PhpEval.{
  execute_source, restore, run_closure, set_error_reporting, ext_php_rs_zend_execute, after_execute,
  drop_static_vars, release, check_exception, first_visible, without_tag, err, bailout, strip_bom,
  strip_php_open_tag, Globals, State, Call, returns, jumps, execute,
}
use ext_php_rs.PhpEval.Strip.{Tagged, strip_php_open_tag-Tagged}
use ext_php_rs.PhpEval.Restore.{execute-restores, answered}

abbrev script : Bytes
script = codes " <?PhP  die;"

strip_php_open_tag-Tagged_example :
    (strip_php_open_tag script ≡ some (codes "die;")) ↔ Tagged script (codes "die;")
strip_php_open_tag-Tagged_example = strip_php_open_tag-Tagged script (codes "die;")

script_stripped : strip_php_open_tag script ≡ some (codes "die;")
unfolding strip_php_open_tag first_visible without_tag trim_ascii_start
script_stripped = refl

-- A compiler that turns the level on again, and a script that ends in a fatal error.
abbrev compiler : Bytes → Globals Bool → Call Bool (Option ℕ)
compiler source g = returns (some 7) (record g { error_reporting = 1 })

abbrev fatal : ℕ → Globals Bool → Call Bool ℕ
fatal op g = jumps (record g { rest = true })

abbrev finished : ℕ → Globals Bool → Call Bool ℕ
finished op g = returns 5 g

-- A destructor that runs into a fatal error.
abbrev fatal_dtor : ℕ → Globals Bool → Call Bool Unit
fatal_dtor value g = jumps (record g { rest = true })

abbrev no_statics : ℕ → Globals Bool → Call Bool Unit
no_statics op g = returns tt g

abbrev before : State Bool
before = record {
  globals = record { error_reporting = 32767; exception = false; rest = false };
  freed = 3 ∷ [];
}

execute-restores_example :
    execute compiler fatal fatal_dtor no_statics script before
    ≡ answered compiler fatal fatal_dtor no_statics (strip_php_open_tag (strip_bom script)) before
execute-restores_example = execute-restores compiler fatal fatal_dtor no_statics script before

fatal_reported :
    execute compiler fatal fatal_dtor no_statics script before
    ≡ returned (err bailout) (record {
      globals = record { error_reporting = 32767; exception = false; rest = true };
      freed = 3 ∷ 7 ∷ [];
    })
unfolding execute execute_source restore try_catch panic_wrapper ext_php_rs_zend_try_catch unbox
    run_closure set_error_reporting ext_php_rs_zend_execute after_execute drop_static_vars release
    check_exception strip_bom strip_php_open_tag first_visible without_tag trim_ascii_start
    strip_prefix
fatal_reported = refl

-- The array 7 is not freed.
leaked :
    execute compiler finished fatal_dtor no_statics script before
    ≡ returned (err bailout) (record {
      globals = record { error_reporting = 32767; exception = false; rest = true };
      freed = 3 ∷ [];
    })
unfolding execute execute_source restore try_catch panic_wrapper ext_php_rs_zend_try_catch unbox
    run_closure set_error_reporting ext_php_rs_zend_execute after_execute drop_static_vars release
    check_exception strip_bom strip_php_open_tag first_visible without_tag trim_ascii_start
    strip_prefix
leaked = refl
