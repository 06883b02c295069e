-- ===== src/BailoutGuard/Once.antt =====
-- Each value has one fate: it waits in the stack, was dropped, or was moved out.
use ext_php_rs.Prelude.{
  ℕ, ◌+◌, ◌<◌, Bool, true, false, some, [], ◌∷◌, ◌++◌, List, ltb, ◌==◌, ◌≡◌, ◌≢◌, refl, sym, ap,
  arith, if◌then◌else◌, length, get_elem?, remove_at, All, get_elem?-append, get_elem?-length,
  get_elem?_lt, Option-cases, inl, inr, All-map, All-map₂, All-remove_at, All-get_elem?, ◌∙◌,
}
use mathlib.Core.Path.{subst}
use ext_php_rs.BailoutGuard.{
  BailoutGuard, World, silence, into_inner, drop, deactivate, cleanups, run_bailout_cleanups,
  Thread, Event, make, drop_guard, take_inner, bail_out, use_guard, step, run, start,
}
use ext_php_rs.BailoutGuard.Counts.{
  count, count_active, fates, Registered, Apart, count-append, count_active-append, count-cleanups,
  count_active-deactivate, get_elem?-deactivate_ne, Apart-remove_at, ApartFrom, Apart-others,
}

-- The invariant of a thread: its guards have active entries of their own, and every address that was
-- handed out has one fate.
pub record IsSound (t : Thread) : Type 0 where
  pub registered : All (Registered t.world.stack) t.guards
  pub apart : Apart t.guards
  pub once : (p : ℕ) → fates t.world p ≡ (if ltb p t.world.next then 1 else 0)

make-IsSound : (t : Thread) → IsSound t → IsSound (step make t)
unfolding step
make-IsSound t h = record {
  registered = (
    get_elem?-length t.world.stack (t.world.next, true),
    All-map (Registered t.world.stack) (Registered (t.world.stack ++ (t.world.next, true) ∷ []))
        t.guards (λ g r. get_elem?-append t.world.stack ((t.world.next, true) ∷ []) g.index r)
        h.registered,
  );
  apart = (
    All-map (Registered t.world.stack) (λ (g : BailoutGuard). g.index ≢ length t.world.stack)
        t.guards (λ g r same. omega (arith, get_elem?_lt t.world.stack g.index r)) h.registered,
    h.apart,
  );
  once = λ p.
      ground (arith, h.once p, count_active-append p t.world.stack ((t.world.next, true) ∷ []));
}

bail_out-IsSound : (t : Thread) → IsSound t → IsSound (step bail_out t)
unfolding step run_bailout_cleanups
bail_out-IsSound t h = record {
  registered = tt;
  apart = tt;
  once = λ p. ground (
    arith,
    h.once p,
    count-append p t.world.dropped (cleanups t.world.stack),
    count-cleanups p t.world.stack,
  );
}

-- What `silence` does under the invariant, and what is left of the other guards.
silence_lem :
    (g : BailoutGuard) (w : World)
    → Registered w.stack g
    → silence g w ≡ record w { stack = deactivate w.stack g.index }
unfolding silence
silence_lem g w r = ground (arith, get_elem?_lt w.stack g.index r)

Registered-others :
    (s : List (ℕ × Bool)) (g : BailoutGuard) (gs : List BailoutGuard)
    → All (Registered s) gs
    → All (ApartFrom g) gs
    → All (Registered (deactivate s g.index)) gs
Registered-others s g gs h k =
    All-map₂ (Registered s) (ApartFrom g) (Registered (deactivate s g.index)) gs
      (λ y r ne. get_elem?-deactivate_ne s g.index y.index ne ∙ r) h k

-- Using up an owned guard, by a function that silences it and gives its address one fate.
use_guard-IsSound :
    (f : BailoutGuard → World → World)
    → ((g : BailoutGuard) (w : World) → (f g w).stack ≡ (silence g w).stack)
    → ((g : BailoutGuard) (w : World) → (f g w).next ≡ w.next)
    → ((g : BailoutGuard) (w : World) (p : ℕ)
        → count p (f g w).dropped + count p (f g w).taken
          ≡ count p w.dropped + count p w.taken + (if g.value == p then 1 else 0))
    → (k : ℕ) (t : Thread) → IsSound t
    → IsSound (use_guard f k (get_elem? t.guards k) t)
use_guard-IsSound f s n c k t h = elim (Option-cases (get_elem? t.guards k)) [
  | inl e ↦ subst (λ o. IsSound (use_guard f k o t)) (sym e) h
  | inr (g, e) ↦
      let r : Registered t.world.stack g =
        All-get_elem? (Registered t.world.stack) t.guards k h.registered e in
      let q : (f g t.world).stack ≡ deactivate t.world.stack g.index =
        s g t.world ∙ ap (λ (w : World). w.stack) (silence_lem g t.world r) in
      subst (λ o. IsSound (use_guard f k o t)) (sym e)
        (record {
          registered =
              subst (λ x. All (Registered x) (remove_at t.guards k)) (sym q)
                (Registered-others t.world.stack g (remove_at t.guards k)
                  (All-remove_at (Registered t.world.stack) t.guards k h.registered)
                  (Apart-others t.guards k e h.apart));
          apart = Apart-remove_at t.guards k h.apart;
          once = λ p.
              let z : count_active p (f g t.world).stack
                  ≡ count_active p (deactivate t.world.stack g.index) =
                ap (count_active p) q in
              let m : ◌≡◌ {A = ℕ} (if ltb p (f g t.world).next then 1 else 0)
                  (if ltb p t.world.next then 1 else 0) =
                ap (λ (x : ℕ). if ltb p x then 1 else 0) (n g t.world) in
              omega (
                arith,
                z,
                m,
                h.once p,
                c g t.world p,
                count_active-deactivate p g.value t.world.stack g.index r,
              );
        })
]

abbrev Keeps : World → World → Type 0
Keeps w v = (v.next ≡ w.next) × (v.dropped ≡ w.dropped) × (v.taken ≡ w.taken)

if-Keeps :
    (b : Bool) (w : World) (s : List (ℕ × Bool)) → Keeps w (if b then record w { stack = s } else w)
if-Keeps true w s = (refl, refl, refl)
if-Keeps false w s = (refl, refl, refl)

silence-Keeps : (g : BailoutGuard) (w : World) → Keeps w (silence g w)
unfolding silence
silence-Keeps g w = if-Keeps (ltb g.index (length w.stack)) w (deactivate w.stack g.index)

drop-IsSound : (k : ℕ) (t : Thread) → IsSound t → IsSound (step (drop_guard k) t)
unfolding step drop
drop-IsSound =
    use_guard-IsSound drop (λ g w. refl) (λ g w. (silence-Keeps g w).0)
      (λ g w p.
        let k = silence-Keeps g w in
        let d = ap (count p) k.1 in
        let e = ap (count p) k.2 in
        omega (arith, d, e, count-append p (silence g w).dropped (g.value ∷ [])))

take_inner-IsSound : (k : ℕ) (t : Thread) → IsSound t → IsSound (step (take_inner k) t)
unfolding step into_inner
take_inner-IsSound =
    use_guard-IsSound into_inner (λ g w. refl) (λ g w. (silence-Keeps g w).0)
      (λ g w p.
        let k = silence-Keeps g w in
        let d = ap (count p) k.1 in
        let e = ap (count p) k.2 in
        omega (arith, d, e, count-append p (silence g w).taken (g.value ∷ [])))

step-IsSound : (e : Event) (t : Thread) → IsSound t → IsSound (step e t)
step-IsSound make = make-IsSound
step-IsSound (drop_guard k) = drop-IsSound k
step-IsSound (take_inner k) = take_inner-IsSound k
step-IsSound bail_out = bail_out-IsSound

run-IsSound : (es : List Event) (t : Thread) → IsSound t → IsSound (run es t)
unfolding run
run-IsSound [] t h = h
run-IsSound (e ∷ es) t h = run-IsSound es (step e t) (step-IsSound e t h)

start-IsSound : IsSound start
start-IsSound = record { registered = tt; apart = tt; once = λ p. ground arith }

-- After any sequence of makes, drops, takes and bailouts in which no frame that owns a guard goes on
-- after a bailout, an address that `new` has handed out
-- has exactly one fate, among waiting in an active entry of the stack, dropped and moved out; any
-- other address has none.
pub fates-run :
    (es : List Event) (p : ℕ)
    → fates (run es start).world p ≡ (if ltb p (run es start).world.next then 1 else 0)
fates-run es = (run-IsSound es start start-IsSound).once

-- After any sequence of makes, drops, takes and bailouts in which no frame that owns a guard goes on
-- after a bailout, and a last bailout, every address that `new` has handed out was dropped or moved
-- out, and that exactly once: nothing leaks and nothing is dropped twice.
pub bail_out_once :
    (es : List Event) (p : ℕ)
    → p < (run es start).world.next
    → count p (step bail_out (run es start)).world.dropped
        + count p (step bail_out (run es start)).world.taken
      ≡ 1
unfolding step run_bailout_cleanups
bail_out_once es p lt =
    let w = (run es start).world in
    ground
      (arith, fates-run es p, count-append p w.dropped (cleanups w.stack), count-cleanups p w.stack)

-- After any sequence of makes, drops, takes and bailouts, a guard that the thread still owns has an
-- active entry with its address in the stack, so that a bailout drops its value.
pub owned_Registered :
    (es : List Event) (k : ℕ) {g : BailoutGuard}
    → get_elem? (run es start).guards k ≡ some g
    → get_elem? (run es start).world.stack g.index ≡ some (g.value, true)
owned_Registered es k e =
    All-get_elem? (Registered (run es start).world.stack) (run es start).guards k
      (run-IsSound es start start-IsSound).registered e
