-- ===== src/Observer/Exceptions/Chain.antt =====
-- Who is called when an exception is thrown, in every state that src/zend/exception_observer.rs and
-- other extensions reach: the callback never finds itself as the previous hook.
use ext_php_rs.Prelude.{
  ℕ, suc, ◌^◌, true, false, ltb, Option, none, some, List, [], ◌∷◌, ◌++◌, Bytes, codes, ◌≡◌, refl,
  sym, ap, ◌∙◌, append_assoc, append-nil, if◌then◌else◌,
}
use mathlib.Core.Path.{subst}
use mathlib.Core.Option.{some-injective}
use ext_php_rs.Prelude.Int.{ℤ, pos, negsuc}
use ext_php_rs.Text.Utf8.{is_utf8}
use ext_php_rs.Text.Str.{unwrap_or, ◌>>=◌}
use ext_php_rs.Observer.{set_once, class_text, zend_string_to_str}
use ext_php_rs.Observer.Exceptions.{
  ExceptionInfo, Object, Hook, exception_observer_callback, other, Call, on_exception, called,
  State, register_exception_observer_factory, exception_observer_startup, tell, invoke, Event,
  register, startup, hook, throw, step, run, start, from_zend_object, Prop, text, long, other_type,
  text_of, long_of, line_of, read_exception_property, read_exception_property_long,
}

-- Who hears of a throw: only another extension's hook, if there is one; the observer and then the hook
-- that it found; or only a hook that replaced the observer's. A replaced one is kept as it was.
pub data Listeners : Type 0 where
  foreign : Option ℕ → Listeners
  chained : ℕ → Option ℕ → Listeners
  replaced : ℕ → Option ℕ → ℕ → Listeners

-- What the events make of them, by the factory that is registered. The first startup with a factory
-- puts its observer in front of the hook of that time, and no later one changes anything.
abbrev pub factory_after : Event → Option ℕ → Option ℕ
factory_after (register g) f = some g
factory_after startup f = f
factory_after (hook n) f = f
factory_after (throw ex) f = f

abbrev pub started : Option ℕ → Listeners → Listeners
started (some o) (foreign h) = chained o h
started none l = l
started (some o) (chained p h) = chained p h
started (some o) (replaced p h n) = replaced p h n

abbrev pub hooked : ℕ → Listeners → Listeners
hooked n (foreign h) = foreign (some n)
hooked n (chained o h) = replaced o h n
hooked n (replaced o h m) = replaced o h n

abbrev pub heard : Event → Option ℕ → Listeners → Listeners
heard (register g) f l = l
heard startup f l = started f l
heard (hook n) f l = hooked n l
heard (throw ex) f l = l

abbrev pub listeners : List Event → Option ℕ → Listeners → Listeners
listeners [] f l = l
listeners (e ∷ es) f l = listeners es (factory_after e f) (heard e f l)

-- What is read of an exception. Without a class entry no property is read.
abbrev pub class_in : Option (Option Bytes) → Bytes
class_in (some (some name)) = if is_utf8 name then name else codes "Unknown"
class_in (some none) = codes "Unknown"
class_in none = codes "Unknown"

abbrev pub text_in : Option Prop → Option Bytes
text_in (some (text (some s))) = if is_utf8 s then some s else none
text_in (some (text none)) = none
text_in (some (long n)) = none
text_in (some other_type) = none
text_in none = none

abbrev pub long_in : Option Prop → ℤ
long_in (some (long n)) = n
long_in (some (text s)) = pos 0
long_in (some other_type) = pos 0
long_in none = pos 0

abbrev pub line_in : Option Prop → ℕ
line_in (some (long (pos n))) = if ltb n (2 ^ 32) then n else 0
line_in (some (long (negsuc n))) = 0
line_in (some (text s)) = 0
line_in (some other_type) = 0
line_in none = 0

abbrev pub seen_property : Object → Bytes → Option Prop
seen_property ex name = elim ex.ce [ some c ↦ ex.property name | none ↦ none ]

abbrev pub info_of : Object → ExceptionInfo
info_of ex = record {
  class_name = class_in ex.ce;
  message = text_in (seen_property ex (codes "message"));
  code = long_in (seen_property ex (codes "code"));
  file = text_in (seen_property ex (codes "file"));
  line = line_in (seen_property ex (codes "line"));
}

-- The calls of a throw: a null exception is passed on to other hooks, but the observer is not told.
abbrev pub foreign_call : Option ℕ → Option Object → List Call
foreign_call none ex = []
foreign_call (some n) ex = called n ex ∷ []

abbrev pub told : Option Object → List Call
told none = []
told (some ex) = on_exception (info_of ex) ∷ []

abbrev pub calls_of : Listeners → Option Object → List Call
calls_of (foreign h) ex = foreign_call h ex
calls_of (chained o h) ex = told ex ++ foreign_call h ex
calls_of (replaced o h n) ex = called n ex ∷ []

-- The state of the program with these listeners.
abbrev hook_of : Option ℕ → Option Hook
hook_of none = none
hook_of (some n) = some (other n)

abbrev state_of : Option ℕ → Listeners → List Call → State
state_of f (foreign h) c = record {
  factory = f;
  instance_ = none;
  previous_hook = none;
  zend_throw_exception_hook = hook_of h;
  calls = c;
}
state_of f (chained o h) c = record {
  factory = f;
  instance_ = some o;
  previous_hook = some (hook_of h);
  zend_throw_exception_hook = some exception_observer_callback;
  calls = c;
}
state_of f (replaced o h n) c = record {
  factory = f;
  instance_ = some o;
  previous_hook = some (hook_of h);
  zend_throw_exception_hook = some (other n);
  calls = c;
}

class-in : (c : Option (Option Bytes)) → unwrap_or (codes "Unknown") (class_text c) ≡ class_in c
unfolding class_text zend_string_to_str
class-in none = refl
class-in (some none) = refl
class-in (some (some name)) =
    elim (is_utf8 name)
      as (λ b.
        unwrap_or (codes "Unknown") (if b then some name else none)
        ≡ (if b then name else codes "Unknown")) [ true ↦ refl | false ↦ refl ]

text-in : (p : Option Prop) → text_of p ≡ text_in p
unfolding text_of zend_string_to_str
text-in none = refl
text-in (some (text none)) = refl
text-in (some (text (some s))) = refl
text-in (some (long n)) = refl
text-in (some other_type) = refl

line-in : (p : Option Prop) → line_of (long_of p) ≡ line_in p
unfolding line_of
line-in none = refl
line-in (some (text s)) = refl
line-in (some (long (pos n))) = refl
line-in (some (long (negsuc n))) = refl
line-in (some other_type) = refl

long-in : (p : Option Prop) → long_of p ≡ long_in p
long-in none = refl
long-in (some (text s)) = refl
long-in (some (long n)) = refl
long-in (some other_type) = refl

property-in :
    (ex : Object) (name : Bytes) → read_exception_property ex name ≡ text_in (seen_property ex name)
unfolding read_exception_property
property-in ex name =
    elim ex.ce
      as (λ c.
        (elim c [ some ce ↦ text_of (ex.property name) | none ↦ none ])
        ≡ text_in (elim c [ some c ↦ ex.property name | none ↦ none ])) [
          | none ↦ refl
          | some c ↦ text-in (ex.property name)
        ]

number-in :
    (ex : Object) (name : Bytes)
    → read_exception_property_long ex name ≡ long_of (seen_property ex name)
unfolding read_exception_property_long
number-in ex name =
    elim ex.ce
      as (λ c.
        (elim c [ some ce ↦ long_of (ex.property name) | none ↦ pos 0 ])
        ≡ long_of (elim c [ some c ↦ ex.property name | none ↦ none ])) [
          | none ↦ refl
          | some c ↦ refl
        ]

tell-told : (o : ℕ) (ex : Option Object) → tell (some o) ex ≡ told ex
unfolding tell from_zend_object
tell-told o none = refl
tell-told o (some ex) =
    rw
      (
        class-in ex.ce,
        property-in ex (codes "message"),
        property-in ex (codes "file"),
        number-in ex (codes "code"),
        number-in ex (codes "line"),
        long-in (seen_property ex (codes "code")),
        line-in (seen_property ex (codes "line")),
      )
      refl

thrown :
    (fuel : ℕ) (f : Option ℕ) (l : Listeners) (c : List Call) (ex : Option Object)
    → step (suc fuel) (throw ex) (state_of f l c) ≡ some (state_of f l (c ++ calls_of l ex))
unfolding step invoke
thrown fuel f (foreign none) c ex = rw append-nil refl
thrown fuel f (foreign (some n)) c ex = refl
thrown fuel f (chained o none) c ex = rw (tell-told o ex, append-nil) refl
thrown fuel f (chained o (some n)) c ex =
    rw (tell-told o ex, append_assoc c (told ex) (called n ex ∷ [])) refl
thrown fuel f (replaced o h n) c ex = refl

-- One event leads from such a state to another.
stepped :
    (fuel : ℕ) (e : Event) (f : Option ℕ) (l : Listeners) (c : List Call) (t : State)
    → step (suc fuel) e (state_of f l c) ≡ some t
    → (d : List Call) × (state_of (factory_after e f) (heard e f l) d ≡ t)
unfolding step register_exception_observer_factory exception_observer_startup set_once
stepped fuel (register g) none (foreign h) c t p = (c, some-injective _ _ p)
stepped fuel (register g) none (chained o h) c t p = (c, some-injective _ _ p)
stepped fuel (register g) none (replaced o h n) c t p = (c, some-injective _ _ p)
stepped fuel (register g) (some f) (foreign h) c t p = cc
stepped fuel (register g) (some f) (chained o h) c t p = cc
stepped fuel (register g) (some f) (replaced o h n) c t p = cc
stepped fuel startup none (foreign h) c t p = (c, some-injective _ _ p)
stepped fuel startup none (chained o h) c t p = (c, some-injective _ _ p)
stepped fuel startup none (replaced o h n) c t p = (c, some-injective _ _ p)
stepped fuel startup (some f) (foreign h) c t p = (c, some-injective _ _ p)
stepped fuel startup (some f) (chained o h) c t p = (c, some-injective _ _ p)
stepped fuel startup (some f) (replaced o h n) c t p = (c, some-injective _ _ p)
stepped fuel (hook n) f (foreign h) c t p = (c, some-injective _ _ p)
stepped fuel (hook n) f (chained o h) c t p = (c, some-injective _ _ p)
stepped fuel (hook n) f (replaced o h m) c t p = (c, some-injective _ _ p)
stepped fuel (throw ex) f l c t p =
    (c ++ calls_of l ex, some-injective _ _ (sym (thrown fuel f l c ex) ∙ p))

reached :
    (fuel : ℕ) (es : List Event) (f : Option ℕ) (l : Listeners) (c : List Call) (t : State)
    → run (suc fuel) es (state_of f l c) ≡ some t
    → (g : Option ℕ) × (d : List Call) × (state_of g (listeners es f l) d ≡ t)
unfolding run
reached fuel [] f l c t p = (f, c, some-injective _ _ p)
reached fuel (e ∷ es) f l c t p =
    elim (step (suc fuel) e (state_of f l c))
        as (λ o.
          step (suc fuel) e (state_of f l c) ≡ o
          → (o >>= run (suc fuel) es) ≡ some t
          → (g : Option ℕ) × (d : List Call) × (state_of g (listeners (e ∷ es) f l) d ≡ t)) [
            | some u ↦ λ a b.
                let (d, q) = stepped fuel e f l c u a in
                reached fuel es (factory_after e f) (heard e f l) d t
                  (ap (λ v. run (suc fuel) es v) q ∙ b)
            | none ↦ λ a b. cc
          ]
      refl p

thrown_with :
    (fuel : ℕ) (f : Option ℕ) (l : Listeners) (c : List Call) (ex : Option Object)
    → step (suc fuel) (throw ex) (state_of f l c)
      ≡ some (record (state_of f l c) { calls = (state_of f l c).calls ++ calls_of l ex })
thrown_with fuel f (foreign h) c ex = thrown fuel f (foreign h) c ex
thrown_with fuel f (chained o h) c ex = thrown fuel f (chained o h) c ex
thrown_with fuel f (replaced o h n) c ex = thrown fuel f (replaced o h n) c ex

-- A throw ends after any events, be they of this extension or of others, that raised no panic, and calls
-- who it should by these events, in order. Before the first startup that follows a registration it calls
-- the hook that another extension put in last, if any; afterwards the observer, told of an exception
-- that is not null, and then that same hook, once; and once another extension has put in its hook after
-- that, only the last such hook. Nothing else changes.
pub run_throws :
    (fuel : ℕ) (es : List Event) (s : State) (ex : Option Object)
    → run (suc fuel) es start ≡ some s
    → step (suc fuel) (throw ex) s
      ≡ some (record s { calls = s.calls ++ calls_of (listeners es none (foreign none)) ex })
run_throws fuel es s ex h =
    let l = listeners es none (foreign none) in
    let (g, c, q) = reached fuel es none (foreign none) [] s h in
    subst (λ u. step (suc fuel) (throw ex) u ≡ some (record u { calls = u.calls ++ calls_of l ex }))
      q (thrown_with fuel g l c ex)
