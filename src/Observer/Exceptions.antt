-- ===== src/Observer/Exceptions.antt =====
-- src/zend/exception_observer.rs as a state machine: its three locks, PHP's hook for thrown exceptions,
-- and who was called, in order. Another extension's hook is a number; what it calls in turn is its own.
pub mod Chain
use ext_php_rs.Prelude.{
  ℕ, zero, suc, Bool, true, false, Option, none, some, List, [], ◌∷◌, ◌++◌, Bytes, codes, ltb,
  if◌then◌else◌,
}
use ext_php_rs.Prelude.Int.{ℤ, pos, negsuc}
use ext_php_rs.Text.Str.{unwrap_or, ◌>>=◌}
use ext_php_rs.Observer.{set_once, zend_string_to_str, class_text}

pub record ExceptionInfo : Type 0 where
  pub class_name : Bytes
  pub message : Option Bytes
  pub code : ℤ
  pub file : Option Bytes
  pub line : ℕ

-- What the type tests of a property's zval tell apart.
pub data Prop : Type 0 where
  text : Option Bytes → Prop
  long : ℤ → Prop
  other_type : Prop

-- A `zend_object`: its class entry, of which the name is read, and what `zend_read_property` returns.
pub record Object : Type 0 where
  pub ce : Option (Option Bytes)
  pub property : Bytes → Option Prop

unfoldable pub text_of : Option Prop → Option Bytes
unfolding zend_string_to_str
text_of (some (text zs)) = zend_string_to_str zs
text_of _ = none

abbrev pub long_of : Option Prop → ℤ
long_of (some (long n)) = n
long_of _ = pos 0

-- The names are literals without a NUL, so `CString::new` succeeds.
unfoldable pub read_exception_property : Object → Bytes → Option Bytes
unfolding text_of
read_exception_property ex name = elim ex.ce [ some ce ↦ text_of (ex.property name) | none ↦ none ]

unfoldable pub read_exception_property_long : Object → Bytes → ℤ
read_exception_property_long ex name = elim ex.ce [
  | some ce ↦ long_of (ex.property name)
  | none ↦ pos 0
]

-- `i64` to `u32`, and 0 for what does not fit.
unfoldable pub line_of : ℤ → ℕ
line_of (pos n) = if ltb n 4294967296 then n else 0
line_of (negsuc n) = 0

unfoldable pub from_zend_object : Option Object → Option ExceptionInfo
unfolding read_exception_property read_exception_property_long line_of class_text
from_zend_object none = none
from_zend_object (some ex) = some (record {
  class_name = unwrap_or (codes "Unknown") (class_text ex.ce);
  message = read_exception_property ex (codes "message");
  code = read_exception_property_long ex (codes "code");
  file = read_exception_property ex (codes "file");
  line = line_of (read_exception_property_long ex (codes "line"));
})

pub data Hook : Type 0 where
  exception_observer_callback : Hook
  other : ℕ → Hook

-- What happens on a throw: the observer is told, or another hook is called with the exception.
pub data Call : Type 0 where
  on_exception : ExceptionInfo → Call
  called : ℕ → Option Object → Call

-- A factory is a number, and so is the observer that it makes.
pub record State : Type 0 where
  pub factory : Option ℕ
  pub instance_ : Option ℕ
  pub previous_hook : Option (Option Hook)
  pub zend_throw_exception_hook : Option Hook
  pub calls : List Call

unfoldable pub register_exception_observer_factory : ℕ → State → Option State
unfolding set_once
register_exception_observer_factory f s =
    let (lock, is_ok) = set_once f s.factory in
    if is_ok then some (record s { factory = lock }) else none

abbrev pub installed : State → Option ℕ × Bool → State
installed s (lock, true) = record s {
  instance_ = lock;
  previous_hook = (set_once s.zend_throw_exception_hook s.previous_hook).0;
  zend_throw_exception_hook = some exception_observer_callback;
}
installed s (lock, false) = record s { instance_ = lock }

unfoldable pub exception_observer_startup : State → State
unfolding set_once
exception_observer_startup s = elim s.factory [
  | some factory ↦ installed s (set_once factory s.instance_)
  | none ↦ s
]

-- The observer's part of the callback.
unfoldable pub tell : Option ℕ → Option Object → List Call
unfolding from_zend_object
tell none ex = []
tell (some o) ex = elim (from_zend_object ex) [ some info ↦ on_exception info ∷ [] | none ↦ [] ]

-- A call of a hook, on fuel: the callback passes the exception on to the hook that it found.
unfoldable pub invoke : ℕ → Option Hook → Option Object → State → Option State
unfolding tell
invoke fuel none ex s = some s
invoke fuel (some (other n)) ex s = some (record s { calls = s.calls ++ called n ex ∷ [] })
invoke zero (some exception_observer_callback) ex s = none
invoke (suc fuel) (some exception_observer_callback) ex s =
    invoke fuel (unwrap_or none s.previous_hook) ex
      (record s { calls = s.calls ++ tell s.instance_ ex })

pub data Event : Type 0 where
  register : ℕ → Event
  startup : Event
  hook : ℕ → Event
  throw : Option Object → Event

-- Another extension may put its hook in; a throw calls the hook that PHP holds.
unfoldable pub step : ℕ → Event → State → Option State
unfolding register_exception_observer_factory exception_observer_startup invoke
step fuel (register f) s = register_exception_observer_factory f s
step fuel startup s = some (exception_observer_startup s)
step fuel (hook n) s = some (record s { zend_throw_exception_hook = some (other n) })
step fuel (throw ex) s = invoke fuel s.zend_throw_exception_hook ex s

unfoldable pub run : ℕ → List Event → State → Option State
unfolding step
run fuel [] s = some s
run fuel (e ∷ es) s = step fuel e s >>= run fuel es

abbrev pub start : State
start = record {
  factory = none;
  instance_ = none;
  previous_hook = none;
  zend_throw_exception_hook = none;
  calls = [];
}
