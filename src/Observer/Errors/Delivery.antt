-- ===== src/Observer/Errors/Delivery.antt =====
-- What reaches the observer of src/zend/error_observer.rs along every sequence of events.
use ext_php_rs.Prelude.{
  ℕ, Bool, true, false, Bytes, if◌then◌else◌, sym, Option, none, some, List, [], ◌∷◌, ◌++◌, map,
  ◌≡◌, refl, ap, arith, append_assoc, append-nil, ◌∙◌,
}
use mathlib.Core.Path.{subst}
use mathlib.Core.Option.{some-injective}
use Prim.Native.Nat.{bit_and}
use ext_php_rs.Text.Utf8.{is_utf8}
use ext_php_rs.Text.Str.{◌>>=◌, unwrap_or}
use ext_php_rs.Observer.{set_once, zend_string_to_str}
use ext_php_rs.Observer.Errors.{
  ErrorInfo, Observer, Factory, State, Report, told, error_observer_callback, started,
  register_error_observer_factory, error_observer_startup, Event, register, startup, error, notify,
  step, run, start, info_of, from_bits_truncate,
}

abbrev pub present : Option Observer → ℕ
present none = 0
present (some o) = 1

-- PHP's list holds the callback once if there is an observer, and nobody was told anything if not.
pub record Inv (s : State) : Type 0 where
  pub one_callback : s.callbacks ≡ present s.instance_
  pub silent : s.instance_ ≡ none → s.seen ≡ []

pub start-Inv : Inv start
start-Inv = record { one_callback = refl; silent = λ h. refl }

started-Inv : (o : Observer) (s : State) → Inv s → Inv (started s (set_once o s.instance_))
unfolding set_once
started-Inv o s h = ground (arith, h.one_callback)

startup-Inv : (s : State) → Inv s → Inv (error_observer_startup s)
unfolding error_observer_startup
startup-Inv s h =
    elim s.factory
      as (λ f.
        Inv (elim f [ some factory ↦ started s (set_once (factory tt) s.instance_) | none ↦ s ])) [
          | none ↦ h
          | some factory ↦ started-Inv (factory tt) s h
        ]

notify-present :
    (o : Option Observer) (r : Report) (s : State)
    → s.instance_ ≡ o
    → notify (present o) r s ≡ record s { seen = s.seen ++ told o r }
unfolding notify error_observer_callback told
notify-present none r s h = rw append-nil refl
notify-present (some o) r s h = rw (h, told) refl

notified :
    (r : Report) (s : State)
    → Inv s
    → notify s.callbacks r s ≡ record s { seen = s.seen ++ told s.instance_ r }
notified r s h = ap (λ n. notify n r s) h.one_callback ∙ notify-present s.instance_ r s refl

report-Inv : (r : Report) (s : State) → Inv s → Inv (notify s.callbacks r s)
unfolding told
report-Inv r s h =
    rw (notified r s h)
      (record { one_callback = h.one_callback; silent = λ e. rw (e, h.silent e) refl })

registered-Inv :
    (f : Factory) (s t : State) → Inv s → register_error_observer_factory f s ≡ some t → Inv t
unfolding register_error_observer_factory set_once
registered-Inv f s t h e = ground (arith, h.one_callback, h.silent)

step-Inv : (e : Event) (s t : State) → Inv s → step e s ≡ some t → Inv t
unfolding step
step-Inv (register f) s t h e = registered-Inv f s t h e
step-Inv startup s t h e = subst Inv (some-injective _ _ e) (startup-Inv s h)
step-Inv (error r) s t h e = subst Inv (some-injective _ _ e) (report-Inv r s h)

-- A run of one more event.
run_then :
    (e : Event) (es : List Event) (s t : State)
    → run (e ∷ es) s ≡ some t
    → (u : State) × (step e s ≡ some u) × (run es u ≡ some t)
unfolding run
run_then e es s t h =
    elim (step e s)
        as (λ o.
          step e s ≡ o
          → (o >>= run es) ≡ some t
          → (u : State) × (step e s ≡ some u) × (run es u ≡ some t)) [
            | some u ↦ λ p q. (u, p, q)
            | none ↦ λ p q. cc
          ]
      refl h

pub run-Inv : (es : List Event) (s t : State) → Inv s → run es s ≡ some t → Inv t
unfolding run
run-Inv [] s t h e = subst Inv (some-injective _ _ e) h
run-Inv (x ∷ es) s t h e =
    let (u, p, q) = run_then x es s t e in run-Inv es u t (step-Inv x s u h p) q

-- Everything that an observer is told of some reports, in their order.
abbrev pub told_all : Option Observer → List Report → List ErrorInfo
told_all o [] = []
told_all o (r ∷ rs) = told o r ++ told_all o rs

delivered :
    (rs : List Report) (s : State)
    → Inv s
    → run (map error rs) s ≡ some (record s { seen = s.seen ++ told_all s.instance_ rs })
unfolding run step
delivered [] s h = rw append-nil refl
delivered (r ∷ rs) s h =
    let next : State = record s { seen = s.seen ++ told s.instance_ r } in
    let ih = delivered rs next (subst Inv (notified r s h) (report-Inv r s h)) in
    rw (notified r s h, ← append_assoc s.seen (told s.instance_ r) (told_all s.instance_ rs)) ih

-- The observer that the events put in: the one of the first startup with a factory.
abbrev pub watched : Option Observer → Option Factory → List Event → Option Observer
watched (some o) f es = some o
watched none f [] = none
watched none f (register g ∷ es) = watched none (some g) es
watched none none (startup ∷ es) = watched none none es
watched none (some f) (startup ∷ es) = some (f tt)
watched none f (error r ∷ es) = watched none f es

-- A report with the flags that the program knows, and with valid texts.
abbrev pub valid : Option Bytes → Option Bytes
valid none = none
valid (some s) = if is_utf8 s then some s else none

abbrev pub text_or_empty : Option Bytes → Bytes
text_or_empty none = []
text_or_empty (some s) = if is_utf8 s then s else []

abbrev pub known_flags : Report → ℕ
known_flags r = bit_and r.error_type 0x7fff

abbrev pub received : Report → ErrorInfo
received r = record {
  error_type = known_flags r;
  filename = valid r.filename;
  lineno = r.lineno;
  message = text_or_empty r.message;
}

-- The reports that the filter lets through.
abbrev pub sent : Option Observer → List Report → List ErrorInfo
sent none rs = []
sent (some lets_through) [] = []
sent (some lets_through) (r ∷ rs) =
    let rest = sent (some lets_through) rs in
    if lets_through (known_flags r) then received r ∷ rest else rest

valid_lem : (o : Option Bytes) → zend_string_to_str o ≡ valid o
unfolding zend_string_to_str
valid_lem none = refl
valid_lem (some s) = refl

text_or_empty_lem : (o : Option Bytes) → unwrap_or [] (zend_string_to_str o) ≡ text_or_empty o
unfolding zend_string_to_str
text_or_empty_lem none = refl
text_or_empty_lem (some s) =
    elim (is_utf8 s) as (λ b. unwrap_or [] (if b then some s else none) ≡ (if b then s else [])) [
      | true ↦ refl
      | false ↦ refl
    ]

received_lem : (r : Report) → info_of r ≡ received r
unfolding info_of from_bits_truncate
received_lem r = rw (valid_lem r.filename, text_or_empty_lem r.message) refl

front :
    (b : Bool) (e : ErrorInfo) (es : List ErrorInfo)
    → (if b then e ∷ [] else []) ++ es ≡ (if b then e ∷ es else es)
front true e es = refl
front false e es = refl

told_all-sent : (o : Option Observer) (rs : List Report) → told_all o rs ≡ sent o rs
unfolding told from_bits_truncate
told_all-sent none [] = refl
told_all-sent none (r ∷ rs) = told_all-sent none rs
told_all-sent (some f) [] = refl
told_all-sent (some f) (r ∷ rs) =
    rw (told_all-sent (some f) rs, received_lem r)
      (front (f (known_flags r)) (received r) (sent (some f) rs))

-- The state in front of an event, its observer and factory split.
abbrev with_locks : State → Option Factory → Option Observer → State
with_locks s f o = record s { factory = f; instance_ = o }

watched-step :
    (e : Event) (es : List Event) (s : State) (f : Option Factory) (o : Option Observer) (t : State)
    → Inv (with_locks s f o)
    → step e (with_locks s f o) ≡ some t
    → watched o f (e ∷ es) ≡ watched t.instance_ t.factory es
unfolding step register_error_observer_factory error_observer_startup set_once
watched-step (register g) es s none none t h p =
    ap (λ u. watched u.instance_ u.factory es) (some-injective _ _ p)
watched-step (register g) es s none (some o) t h p =
    ap (λ u. watched u.instance_ u.factory es) (some-injective _ _ p)
watched-step (register g) es s (some f) none t h p = cc
watched-step (register g) es s (some f) (some o) t h p = cc
watched-step startup es s none none t h p =
    ap (λ u. watched u.instance_ u.factory es) (some-injective _ _ p)
watched-step startup es s none (some o) t h p =
    ap (λ u. watched u.instance_ u.factory es) (some-injective _ _ p)
watched-step startup es s (some f) none t h p =
    ap (λ u. watched u.instance_ u.factory es) (some-injective _ _ p)
watched-step startup es s (some f) (some o) t h p =
    ap (λ u. watched u.instance_ u.factory es) (some-injective _ _ p)
watched-step (error r) es s f none t h p =
    ap (λ u. watched u.instance_ u.factory es)
      (sym (notified r (with_locks s f none) h) ∙ some-injective _ _ p)
watched-step (error r) es s f (some o) t h p =
    ap (λ u. watched u.instance_ u.factory es)
      (sym (notified r (with_locks s f (some o)) h) ∙ some-injective _ _ p)

watched-run :
    (es : List Event) (s t : State)
    → Inv s
    → run es s ≡ some t
    → t.instance_ ≡ watched s.instance_ s.factory es
unfolding run
watched-run [] s t h p = ap (λ u. u.instance_) (sym (some-injective _ _ p)) ∙ last s.instance_
  where
    last : (o : Option Observer) → o ≡ watched o s.factory []
    last none = refl
    last (some o) = refl
watched-run (e ∷ es) s t h p =
    let (u, q, r) = run_then e es s t p in
    watched-run es u t (step-Inv e s u h q) r
    ∙ sym (watched-step e es s s.factory s.instance_ u h q)

-- After any events whatever that raised no panic, errors go to the observer that the first startup
-- behind a registration made, if there was one: each one whose known flags its filter lets through,
-- exactly once, in the order in which they occur, with texts that are not UTF-8 left out; and
-- nothing else changes.
pub run_delivers :
    (es : List Event) (s : State) (rs : List Report)
    → run es start ≡ some s
    → run (map error rs) s ≡ some (record s { seen = s.seen ++ sent (watched none none es) rs })
run_delivers es s rs h =
    delivered rs s (run-Inv es start s start-Inv h)
    ∙ ap (λ x. some (record s { seen = s.seen ++ x }))
        (told_all-sent s.instance_ rs ∙ ap (λ o. sent o rs) (watched-run es start s start-Inv h))
