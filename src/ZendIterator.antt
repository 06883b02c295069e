-- ===== src/ZendIterator.antt =====
-- src/types/iterator.rs: PHP's iterators as iterators of Rust. The functions of a `zend_object_iterator`
-- are arguments, over any state `S` of PHP; keys and values are of any types.
pub mod Drain
pub mod Exceptions
use ext_php_rs.Prelude.{
  ℕ, zero, suc, ◌+◌, ◌-◌, ◌^◌, Bool, true, false, not, ◌&&◌, Option, none, some, List, [], ◌∷◌, ltb,
  if◌then◌else◌,
}

-- `zend_object_iterator_funcs`: `valid` tells whether it returned success.
pub record Funcs (S K V : Type 0) : Type 0 where
  pub valid : Option (S → Bool × S)
  pub rewind : Option (S → S)
  pub move_forward : Option (S → S)
  pub get_current_data : Option (S → V × S)
  pub get_current_key : Option (S → K × S)

pub record ZendIterator (S : Type 0) : Type 0 where
  pub index : ℕ
  pub php : S

-- `Option<Self::Item>`, or the panic of `expect("index out of bounds")`.
pub data Next (K V : Type 0) : Type 0 where
  item : K → V → Next K V
  stop : Next K V
  out_of_bounds : Next K V

-- `key` makes the zval of a number; `has_exception` is `ExecutorGlobals::has_exception`.
module _ {S K V : Type 0} (has_exception : S → Bool) (set_long : ℕ → K) (funcs : Funcs S K V) where
  unfoldable pub valid : ZendIterator S → Bool × ZendIterator S
  valid self = elim funcs.valid [
    | some f ↦
        let (success, s) = f self.php in
        (if has_exception s then false else success, record self { php = s })
    | none ↦ (true, self)
  ]

  -- `rewind` and `move_forward` differ in the function that they call.
  abbrev called : Option (S → S) → ZendIterator S → Bool × ZendIterator S
  called (some f) self = (not (has_exception (f self.php)), record self { php = f self.php })
  called none self = (not (has_exception self.php), self)

  unfoldable pub rewind : ZendIterator S → Bool × ZendIterator S
  rewind self = called funcs.rewind self

  unfoldable pub move_forward : ZendIterator S → Bool × ZendIterator S
  move_forward self = called funcs.move_forward self

  -- `get_current_data` and `get_current_key` in the same way.
  abbrev got : {A : Type 0} → Option (S → A × S) → ZendIterator S → Option A × ZendIterator S
  got (some f) self =
      let (a, s) = f self.php in (if has_exception s then none else some a, record self { php = s })
  got none self = (none, self)

  unfoldable pub get_current_data : ZendIterator S → Option V × ZendIterator S
  get_current_data self = got funcs.get_current_data self

  unfoldable pub get_current_key : ZendIterator S → Option K × ZendIterator S
  get_current_key self = got funcs.get_current_key self

  -- The iterator is the same object, so `Iter` is its state.
  unfoldable pub iter : ZendIterator S → Option (ZendIterator S)
  unfolding rewind
  iter self =
      let (is_ok, zi) = rewind (record self { index = 0 }) in if is_ok then some zi else none

  abbrev yielded : K → Option V → Next K V
  yielded key none = stop
  yielded key (some value) = item key value

  abbrev key_or : ℕ → Option K → K
  key_or real_index none = set_long real_index
  key_or real_index (some key) = key

  -- What follows a position that is valid.
  unfoldable pub current : ZendIterator S → Next K V × ZendIterator S
  unfolding get_current_key get_current_data
  current self =
      let zi = record self { index = self.index + 1 } in
      let real_index = zi.index - 1 in
      let (key, zi') = get_current_key zi in
      let (value, zi'') = get_current_data zi' in
      if ltb real_index (2 ^ 63)
      then (yielded (key_or real_index key) value, zi'')
      else (out_of_bounds, zi)

  unfoldable pub checked : Bool × ZendIterator S → Next K V × ZendIterator S
  unfolding valid current
  checked (false, zi) = (stop, zi)
  checked (true, zi) =
      let (is_valid, zi') = valid zi in
      let rest = current zi' in if is_valid then rest else (stop, zi')

  unfoldable pub next : ZendIterator S → Next K V × ZendIterator S
  unfolding move_forward checked
  next zi =
      let forward = move_forward zi in checked (if ltb 0 zi.index then forward else (true, zi))

  -- `for` over the iterator: what it got, and whether the iterator was at its end, on fuel.
  pub record Loop : Type 0 where
    pub items : List (K × V)
    pub ended : Bool
    pub zi : ZendIterator S

  abbrev after : Next K V × ZendIterator S → Loop → Loop
  after (item key value, zi) rest = record rest { items = (key, value) ∷ rest.items }
  after (stop, zi) rest = record { items = []; ended = true; zi = zi }
  after (out_of_bounds, zi) rest = record { items = []; ended = false; zi = zi }

  unfoldable pub drain : ℕ → ZendIterator S → Loop
  unfolding next
  drain zero zi = record { items = []; ended = false; zi = zi }
  drain (suc fuel) zi = let rest = drain fuel (next zi).1 in after (next zi) rest
