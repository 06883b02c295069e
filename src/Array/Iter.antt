-- ===== src/Array/Iter.antt =====
-- src/types/array/iterators.rs: the double-ended iterator over a hash table. Zend's functions on
-- positions are parameters; `php85` is the build's flag. `ArrayKey::from_zval` stands in
-- src/types/array/array_key.rs.
pub mod Forward
pub mod Slots
pub mod Ends
use ext_php_rs.Prelude.{
  ℕ, zero, suc, ◌+◌, ◌-◌, Bool, true, false, not, ◌&&◌, ◌||◌, Option, none, some, [], ◌∷◌, List,
  ◌==◌, ltb, leb, if◌then◌else◌,
}
use ext_php_rs.Prelude.Int.{ℤ, pos, negsuc}
use ext_php_rs.ArrayKey.{ArrayKey}
use ext_php_rs.DataType.Tag
use ext_php_rs.Zval.Value.{Zval, zval, lval, is_long, is_string, long, str}
use ext_php_rs.Array.Zend.{ZendHash}
use ext_php_rs.Array.Cursor.{Cursor}

-- `impl FromZval for ArrayKey`
unfoldable pub from_zval : {D : Type 0} → Zval D → Option ArrayKey
from_zval z = elim (long z) [
  | some key ↦ some (ArrayKey.long key)
  | none ↦ elim (str z) [ some key ↦ some (ArrayKey.string key) | none ↦ none ]
]

-- `key_type == HASH_KEY_NON_EXISTENT`, or -1 or 3 before PHP 8.5.
unfoldable pub is_non_existent : Bool → ℤ → Bool
is_non_existent php85 (pos n) = n == 3
is_non_existent php85 (negsuc n) = not php85 && n == 0

pub record Iter : Type 0 where
  pub current_num : ℕ
  pub end_num : ℕ
  pub pos : ℕ
  pub end_pos : ℕ

-- What a call of `next` does; `panic` is that of `expect("Invalid array key!")`.
pub data Step (A : Type 0) : Type 0 where
  done panic : Step A
  item : A → Step A

-- `key.set_long(self.current_num)` on a fresh zval.
abbrev pub key_or_number : {D : Type 0} → ℕ → Zval D → Zval D
key_or_number n key =
    if not (is_long key) && not (is_string key) then zval Tag.long (lval (ℤ.pos n)) else key

abbrev pub step_key : {V : Type 0} → Option ArrayKey → V → Step (ArrayKey × V)
step_key none v = panic
step_key (some k) v = item (k, v)

-- `Some(key) => key, None => ArrayKey::Long(self.end_num)`
abbrev pub key_or_end : ℕ → Option ArrayKey → ArrayKey
key_or_end n none = ArrayKey.long (ℤ.pos n)
key_or_end n (some k) = k

-- How a loop over the iterator ends, with the items that it went through.
pub data Drained (V : Type 0) : Type 0 where
  finished : List (ArrayKey × V) → Drained V
  panicked unfinished : Drained V

abbrev pub add : {V : Type 0} → ArrayKey × V → Drained V → Drained V
add e (finished es) = finished (e ∷ es)
add e panicked = panicked
add e unfinished = unfinished

module _ {V D : Type 0} (z : ZendHash V) (c : Cursor D z) (php85 : Bool) (t : z.Table) where
  open c use {key_type, current_key, current_data, move_forward, move_backwards}

  unfoldable pub new : Iter
  new = record {
    current_num = 0;
    end_num = z.array_count t;
    pos = 0;
    end_pos = if ltb 0 (z.num_of_elements t) then z.num_of_elements t - 1 else 0;
  }

  -- The part of `next_zval` behind the test of the value's pointer.
  abbrev pub advance : Iter → Option V → Option (Zval D × V) × Iter
  advance it none = (none, it)
  advance it (some value) = (
    some (key_or_number it.current_num (current_key t it.pos), value),
    record it { pos = move_forward t it.pos; current_num = it.current_num + 1 },
  )

  unfoldable pub next_zval : Iter → Option (Zval D × V) × Iter
  unfolding is_non_existent
  next_zval it =
      if leb it.end_num it.current_num
      then (none, it)
      else if is_non_existent php85 (key_type t it.pos)
      then (none, it)
      else advance it (current_data t it.pos)

  abbrev pub to_step : Option (Zval D × V) → Step (ArrayKey × V)
  unfolding from_zval
  to_step none = done
  to_step (some (k, v)) = step_key (from_zval k) v

  -- `Iterator::next`
  unfoldable pub next : Iter → Step (ArrayKey × V) × Iter
  unfolding next_zval to_step
  next it = let (o, it') = next_zval it in (to_step o, it')

  -- The part of `next_back` behind the tests. Rust leaves the read through a null pointer undefined: here
  -- it ends the iteration.
  abbrev pub retreat : Iter → Option V → Step (ArrayKey × V) × Iter
  unfolding from_zval
  retreat it none = (done, it)
  retreat it (some value) = (
    item (key_or_end it.end_num (from_zval (current_key t it.end_pos)), value),
    record it { end_pos = move_backwards t it.end_pos; end_num = it.end_num - 1 },
  )

  -- `DoubleEndedIterator::next_back`, which asks for the key's type at the front position.
  unfoldable pub next_back : Iter → Step (ArrayKey × V) × Iter
  unfolding is_non_existent retreat
  next_back it =
      if leb it.end_num it.current_num
      then (done, it)
      else if is_non_existent php85 (key_type t it.pos)
      then (done, it)
      else retreat it (current_data t it.end_pos)

  -- A loop over the iterator, with fuel for the calls of `next`.
  unfoldable pub drain : ℕ → Iter → Drained V
  drain zero it = unfinished
  drain (suc fuel) it =
      let (s, it') = next it in
      elim s [ done ↦ finished [] | panic ↦ panicked | item e ↦ add e (drain fuel it') ]
