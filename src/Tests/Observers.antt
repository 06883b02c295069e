-- ===== src/Tests/Observers.antt =====
-- The theorems on the observers of src/zend at concrete inputs.
use ext_php_rs.Prelude.{Option, none, some, List, [], ◌∷◌, ◌++◌, map, codes, ◌==◌, ◌≡◌, refl}
use ext_php_rs.Prelude.Int.{pos}
use ext_php_rs.Observer.{ExecuteData, set_once}
use ext_php_rs.Observer.Backtrace.{backtrace, backtrace-map, some_frames, frame}
use ext_php_rs.Observer.Errors
use ext_php_rs.Observer.Errors.Delivery.{run_delivers, sent, watched}
use ext_php_rs.Observer.Exceptions
use ext_php_rs.Observer.Exceptions.Chain.{run_throws, calls_of, listeners, foreign}

abbrev main : ExecuteData
main = record { func = none; opline = none }

abbrev method : ExecuteData
method = record {
  func = some (record {
    type_ = 2;
    function_name = some (codes "run");
    scope = some (some (codes "Job"));
    filename = some (codes "job.php");
    line_start = 10;
  });
  opline = some (record { address = 4096; lineno = 12 });
}

backtrace-map_example :
    backtrace (some (method ∷ main ∷ [])) ≡ some_frames (map frame (method ∷ main ∷ []))
backtrace-map_example = backtrace-map (method ∷ main ∷ [])

-- An observer of warnings, which are type 2, registered and started; one error came before that.
abbrev warning : Errors.Report
warning = record { error_type = 2; filename = none; lineno = 3; message = some (codes "hm") }

abbrev notice : Errors.Report
notice = record { error_type = 8; filename = none; lineno = 4; message = none }

abbrev minit : List Errors.Event
minit =
    Errors.error warning ∷ Errors.register (λ u t. t == 2) ∷ Errors.startup ∷ Errors.startup ∷ []

abbrev ready : Errors.State
ready = record {
  factory = some (λ u t. t == 2);
  instance_ = some (λ t. t == 2);
  made = 2;
  callbacks = 1;
  seen = [];
}

run_delivers_example :
    Errors.run (map Errors.error (warning ∷ notice ∷ [])) ready
    ≡ some (record ready { seen = [] ++ sent (watched none none minit) (warning ∷ notice ∷ []) })
unfolding Errors.run Errors.step Errors.register_error_observer_factory
    Errors.error_observer_startup Errors.notify Errors.error_observer_callback Errors.told set_once
run_delivers_example = run_delivers minit ready (warning ∷ notice ∷ []) refl

-- Another extension was there first.
abbrev loaded : List Exceptions.Event
loaded = Exceptions.hook 5 ∷ Exceptions.register 1 ∷ Exceptions.startup ∷ Exceptions.startup ∷ []

abbrev watching : Exceptions.State
watching = record {
  factory = some 1;
  instance_ = some 1;
  previous_hook = some (some (Exceptions.other 5));
  zend_throw_exception_hook = some Exceptions.exception_observer_callback;
  calls = [];
}

abbrev exception : Option Exceptions.Object
exception = some (record {
  ce = some (some (codes "Exception"));
  property = λ name. some (Exceptions.long (pos 7));
})

run_throws_example :
    Exceptions.step 1 (Exceptions.throw exception) watching
    ≡ some (record watching {
      calls = [] ++ calls_of (listeners loaded none (foreign none)) exception;
    })
unfolding Exceptions.run Exceptions.step Exceptions.register_exception_observer_factory
    Exceptions.exception_observer_startup set_once
run_throws_example = run_throws 0 loaded watching exception refl
