-- ===== src/Observer/Errors.antt =====
-- src/zend/error_observer.rs as a state machine: its two locks, PHP's list of callbacks, and what the
-- observer was told. An observer is known by its filter; a factory makes one.
pub mod Delivery
use ext_php_rs.Prelude.{
  ℕ, zero, suc, ◌+◌, Bool, true, false, Option, none, some, List, [], ◌∷◌, ◌++◌, Bytes,
  if◌then◌else◌,
}
use ext_php_rs.Text.Str.{unwrap_or, ◌>>=◌}
use ext_php_rs.Observer.{set_once, zend_string_to_str}
use Prim.Native.Nat.{bit_and}

-- The union of the fifteen flags of `ErrorType`, from `ERROR` to `USER_DEPRECATED`.
abbrev pub all_bits : ℕ
all_bits = 0x7fff

unfoldable pub from_bits_truncate : ℕ → ℕ
from_bits_truncate bits = bit_and bits all_bits

pub record ErrorInfo : Type 0 where
  pub error_type : ℕ
  pub filename : Option Bytes
  pub lineno : ℕ
  pub message : Bytes

-- `should_observe`, by the bits of the error's type.
abbrev pub Observer : Type 0
Observer = ℕ → Bool

abbrev pub Factory : Type 0
Factory = Unit → Observer

-- `made` counts the calls of the factory, `callbacks` how often PHP's list holds the callback, and
-- `seen` is what `on_error` was called with.
pub record State : Type 0 where
  pub factory : Option Factory
  pub instance_ : Option Observer
  pub made : ℕ
  pub callbacks : ℕ
  pub seen : List ErrorInfo

-- The arguments of PHP's call: the type as the bits of a `c_int`.
pub record Report : Type 0 where
  pub error_type : ℕ
  pub filename : Option Bytes
  pub lineno : ℕ
  pub message : Option Bytes

unfoldable pub info_of : Report → ErrorInfo
unfolding zend_string_to_str from_bits_truncate
info_of r = record {
  error_type = from_bits_truncate r.error_type;
  filename = zend_string_to_str r.filename;
  lineno = r.lineno;
  message = unwrap_or [] (zend_string_to_str r.message);
}

-- What an observer is told of a report.
unfoldable pub told : Option Observer → Report → List ErrorInfo
unfolding info_of from_bits_truncate
told none r = []
told (some should_observe) r =
    if should_observe (from_bits_truncate r.error_type) then info_of r ∷ [] else []

unfoldable pub error_observer_callback : Report → State → State
unfolding told
error_observer_callback r s = record s { seen = s.seen ++ told s.instance_ r }

-- The panic of a second registration is `none`.
unfoldable pub register_error_observer_factory : Factory → State → Option State
unfolding set_once
register_error_observer_factory f s =
    let (lock, is_ok) = set_once f s.factory in
    if is_ok then some (record s { factory = lock }) else none

-- The factory is called before the lock refuses its observer.
abbrev pub started : State → Option Observer × Bool → State
started s (lock, true) = record s {
  instance_ = lock;
  made = s.made + 1;
  callbacks = s.callbacks + 1;
}
started s (lock, false) = record s { instance_ = lock; made = s.made + 1 }

unfoldable pub error_observer_startup : State → State
unfolding set_once
error_observer_startup s = elim s.factory [
  | some factory ↦ started s (set_once (factory tt) s.instance_)
  | none ↦ s
]

pub data Event : Type 0 where
  register : Factory → Event
  startup : Event
  error : Report → Event

-- `zend_observer_error_notify` calls every callback of its list.
unfoldable pub notify : ℕ → Report → State → State
unfolding error_observer_callback
notify zero r s = s
notify (suc n) r s = notify n r (error_observer_callback r s)

unfoldable pub step : Event → State → Option State
unfolding register_error_observer_factory error_observer_startup notify
step (register f) s = register_error_observer_factory f s
step startup s = some (error_observer_startup s)
step (error r) s = some (notify s.callbacks r s)

unfoldable pub run : List Event → State → Option State
unfolding step
run [] s = some s
run (e ∷ es) s = step e s >>= run es

abbrev pub start : State
start = record { factory = none; instance_ = none; made = 0; callbacks = 0; seen = [] }
