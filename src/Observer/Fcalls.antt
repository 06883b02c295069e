-- ===== src/Observer/Fcalls.antt =====
-- src/zend/observer.rs: which functions are observed, and what the observer is called with. An
-- observer is known by its filter; a factory makes one.
use ext_php_rs.Prelude.{
  ℕ, ◌+◌, Bool, true, false, Option, none, some, List, [], ◌∷◌, ◌++◌, Bytes, ◌==◌, ◌≡◌, refl,
  if◌then◌else◌,
}
use ext_php_rs.Observer.{
  set_once, zend_string_to_str, class_text, Func, ExecuteData, zend_internal_function,
}
use ext_php_rs.Observer.Backtrace.{frame_of}

pub record FcallInfo : Type 0 where
  pub function_name : Option Bytes
  pub class_name : Option Bytes
  pub filename : Option Bytes
  pub lineno : ℕ
  pub is_internal : Bool

unfoldable pub empty : FcallInfo
empty = record {
  function_name = none;
  class_name = none;
  filename = none;
  lineno = 0;
  is_internal = false;
}

unfoldable pub info_of : Option Func → FcallInfo
unfolding empty zend_string_to_str class_text
info_of none = empty
info_of (some func) =
    let internal = func.type_ == zend_internal_function in
    record {
      function_name = zend_string_to_str func.function_name;
      class_name = class_text func.scope;
      filename = if internal then none else zend_string_to_str func.filename;
      lineno = if internal then 0 else func.line_start;
      is_internal = internal;
    }

unfoldable pub fcall_info : Option ExecuteData → FcallInfo
unfolding empty info_of
fcall_info none = empty
fcall_info (some ex) = info_of ex.func

abbrev pub Observer : Type 0
Observer = FcallInfo → Bool

abbrev pub Factory : Type 0
Factory = Unit → Observer

-- What the observer is called with. The value that a function returns is a number here.
pub data Seen : Type 0 where
  begin : ExecuteData → Seen
  end : ExecuteData → Option ℕ → Seen

pub record State : Type 0 where
  pub factory : Option Factory
  pub instance_ : Option Observer
  pub callbacks : ℕ
  pub seen : List Seen

-- `zend_observer_fcall_handlers`: which of the two functions PHP is to call.
pub record Handlers : Type 0 where
  pub begin : Bool
  pub end : Bool

abbrev no_handlers : Handlers
no_handlers = record { begin = false; end = false }

unfoldable pub observer_fcall_init : Option ExecuteData → State → Handlers
unfolding fcall_info
observer_fcall_init ex s = elim s.instance_ [
  | some should_observe ↦
      if should_observe (fcall_info ex) then record { begin = true; end = true } else no_handlers
  | none ↦ no_handlers
]

abbrev pub told : Option Observer → Option ExecuteData → (ExecuteData → Seen) → List Seen
told (some o) (some ex) event = event ex ∷ []
told _ _ event = []

unfoldable pub observer_begin : Option ExecuteData → State → State
observer_begin ex s = record s { seen = s.seen ++ told s.instance_ ex begin }

unfoldable pub observer_end : Option ExecuteData → Option ℕ → State → State
observer_end ex retval s = record s { seen = s.seen ++ told s.instance_ ex (λ e. end e retval) }

unfoldable pub register_fcall_observer_factory : Factory → State → Option State
unfolding set_once
register_fcall_observer_factory f s =
    let (lock, is_ok) = set_once f s.factory in
    if is_ok then some (record s { factory = lock }) else none

abbrev started : State → Option Observer × Bool → State
started s (lock, true) = record s { instance_ = lock; callbacks = s.callbacks + 1 }
started s (lock, false) = record s { instance_ = lock }

unfoldable pub observer_startup : State → State
unfolding set_once
observer_startup s = elim s.factory [
  | some factory ↦ started s (set_once (factory tt) s.instance_)
  | none ↦ s
]

-- The call observer and the backtrace of an error read the same function alike: its name, its class
-- and its file.
pub info_of-frame_of :
    (func : Option Func) (ex : ExecuteData)
    → ((info_of func).function_name ≡ (frame_of func ex.opline).function)
      × ((info_of func).class_name ≡ (frame_of func ex.opline).class)
      × ((info_of func).filename ≡ (frame_of func ex.opline).file)
unfolding info_of frame_of empty
info_of-frame_of none ex = (refl, refl, refl)
info_of-frame_of (some func) ex = (refl, refl, refl)
