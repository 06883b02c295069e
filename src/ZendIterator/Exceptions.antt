-- ===== src/ZendIterator/Exceptions.antt =====
-- What src/types/iterator.rs gives while an exception is pending, whatever functions PHP's iterator has.
use ext_php_rs.Prelude.{
  ℕ, ◌+◌, ◌-◌, ◌^◌, Bool, true, false, Option, none, some, ◌≡◌, refl, ltb, if◌then◌else◌,
}
use ext_php_rs.ZendIterator.{
  Funcs, ZendIterator, Next, item, stop, out_of_bounds, valid, called, rewind, move_forward, got,
  get_current_data, get_current_key, iter, current, checked, next, yielded, key_or,
}

-- No call of a function clears the exception.
abbrev pub Keeps : {S : Type 0} → (S → Bool) → Option (S → S) → Type 0
Keeps has_exception none = Unit
Keeps {S} has_exception (some f) = (s : S) → has_exception s ≡ true → has_exception (f s) ≡ true

abbrev pub KeepsBy : {S A : Type 0} → (S → Bool) → Option (S → A × S) → Type 0
KeepsBy has_exception none = Unit
KeepsBy {S} has_exception (some f) = (s : S) → has_exception s ≡ true → has_exception (f s).1 ≡ true

pub record Keeping {S K V : Type 0} (has_exception : S → Bool) (funcs : Funcs S K V) : Type 0 where
  pub valid_lem : KeepsBy has_exception funcs.valid
  pub rewind_lem : Keeps has_exception funcs.rewind
  pub forward_lem : Keeps has_exception funcs.move_forward
  pub data_lem : KeepsBy has_exception funcs.get_current_data
  pub key_lem : KeepsBy has_exception funcs.get_current_key

module _ {S K V : Type 0} (has_exception : S → Bool) (set_long : ℕ → K) (funcs : Funcs S K V)
    (laws : Keeping has_exception funcs) where
  called_pending :
      (f : Option (S → S)) (z : ZendIterator S)
      → Keeps has_exception f
      → has_exception z.php ≡ true
      → let r = called has_exception set_long funcs f z in
        (r.0 ≡ false) × (has_exception r.1.php ≡ true)
  called_pending none z k h = (rw h refl, h)
  called_pending (some f) z k h = let h' = k z.php h in (rw h' refl, h')

  got_pending :
      {A : Type 0} (f : Option (S → A × S)) (z : ZendIterator S)
      → KeepsBy has_exception f
      → has_exception z.php ≡ true
      → let r = got has_exception set_long funcs f z in
        (r.0 ≡ none) × (has_exception r.1.php ≡ true)
  got_pending none z k h = (refl, h)
  got_pending (some f) z k h = let h' = k z.php h in (rw h' refl, h')

  -- No item.
  abbrev pub NoItem : Next K V → Type 0
  NoItem (item key value) = ⊥
  NoItem stop = Unit
  NoItem out_of_bounds = Unit

  either :
      (b : Bool) (p q : Next K V × ZendIterator S)
      → NoItem p.0
      → NoItem q.0
      → NoItem (if◌then◌else◌ {A = Next K V × ZendIterator S} b p q).0
  either true p q hp hq = hp
  either false p q hp hq = hq

  current_pending :
      (z : ZendIterator S)
      → has_exception z.php ≡ true
      → NoItem (current has_exception set_long funcs z).0
  unfolding current get_current_key get_current_data
  current_pending z h =
      let next_z : ZendIterator S = record z { index = z.index + 1 } in
      let (k, h') = got_pending funcs.get_current_key next_z laws.key_lem h in
      let after_key = (got has_exception set_long funcs funcs.get_current_key next_z).1 in
      let (d, h'') = got_pending funcs.get_current_data after_key laws.data_lem h' in
      let found : Next K V × ZendIterator S = (
        yielded has_exception set_long funcs
            (key_or has_exception set_long funcs (z.index + 1 - 1)
              (got has_exception set_long funcs funcs.get_current_key next_z).0)
            (got has_exception set_long funcs funcs.get_current_data after_key).0,
        (got has_exception set_long funcs funcs.get_current_data after_key).1,
      ) in
      let lost : Next K V × ZendIterator S = (out_of_bounds, next_z) in
      either (ltb (z.index + 1 - 1) (2 ^ 63)) found lost (rw d tt) tt

  valid_keeps :
      (f : Option (S → Bool × S)) (z : ZendIterator S)
      → funcs.valid ≡ f
      → KeepsBy has_exception f
      → has_exception z.php ≡ true
      → has_exception (valid has_exception set_long funcs z).1.php ≡ true
  unfolding valid
  valid_keeps none z e k h = rw e h
  valid_keeps (some f) z e k h = rw e (k z.php h)

  checked_pending :
      (b : Bool) (z : ZendIterator S)
      → has_exception z.php ≡ true
      → NoItem (checked has_exception set_long funcs (b, z)).0
  unfolding checked valid
  checked_pending false z h = tt
  checked_pending true z h =
      let (is_valid, z') = valid has_exception set_long funcs z in
      let h' = valid_keeps funcs.valid z refl laws.valid_lem h in
      either is_valid (current has_exception set_long funcs z') (stop, z') (current_pending z' h')
        tt

  next_pending :
      (z : ZendIterator S)
      → has_exception z.php ≡ true
      → NoItem (next has_exception set_long funcs z).0
  unfolding next move_forward
  next_pending z h =
      let (stopped, h') = called_pending funcs.move_forward z laws.forward_lem h in
      let forward : Bool × ZendIterator S =
        called has_exception set_long funcs funcs.move_forward z in
      elim (ltb 0 z.index)
        as (λ b.
          NoItem
            (checked has_exception set_long funcs
              (if◌then◌else◌ {A = Bool × ZendIterator S} b forward (true, z))).0) [
                | true ↦ checked_pending forward.0 forward.1 h'
                | false ↦ checked_pending true z h
              ]

  -- While an exception is pending that PHP's functions do not clear, an iterator cannot be started, and
  -- one that was started gives no item.
  pub pending_stops :
      (z : ZendIterator S)
      → has_exception z.php ≡ true
      → (iter has_exception set_long funcs z ≡ none)
        × NoItem (next has_exception set_long funcs z).0
  unfolding iter rewind
  pending_stops z h =
      let start_z : ZendIterator S = record z { index = 0 } in
      let (failed, h') = called_pending funcs.rewind start_z laws.rewind_lem h in
      (rw failed refl, next_pending z h)
