-- ===== src/Array/Iter/Forward.antt =====
-- What the iteration over a hash table yields from the front.
use ext_php_rs.Prelude.{
  ℕ, zero, suc, ◌+◌, ◌<◌, ◌≤◌, ◌%◌, Bool, true, false, none, some, [], ◌∷◌, ◌++◌, List,
  if◌then◌else◌, ◌≡◌, refl, ap, ◌∙◌, arith, length, drop, All, map, Bytes, length-append,
}
use ext_php_rs.Error.{to_option}
use ext_php_rs.Text.Utf8.{is_utf8}
use ext_php_rs.ArrayKey.{ArrayKey}
use ext_php_rs.DataType.{DataType, of_u32, has}
use ext_php_rs.DataType.Tag
use ext_php_rs.ZendStr.{ZendStr, as_str}
use ext_php_rs.ZendStr.Utf8.{as_str_lem}
use ext_php_rs.Zval.Value.{
  Zval, zval, lval, str_, is_long, is_string, is_reference, is_indirect, dereference, get_type,
  long, zend_str, str,
}
use ext_php_rs.Array.Entries.{HashKey, index, name}
use ext_php_rs.Array.Zend.{ZendHash, IsLawful, live, entries}
use ext_php_rs.Array.Cursor.{Cursor, IsLawfulCursor, IsKeyZval, as_i64, type_of, tail}
use ext_php_rs.Array.Iter.{
  from_zval, is_non_existent, Iter, done, key_or_number, step_key, new, next_zval, next, finished,
  panicked, add, drain,
}

-- The key that a key of Zend is read as, where it is a number or valid UTF-8.
abbrev pub to_key : HashKey → ArrayKey
to_key (index i) = ArrayKey.long (as_i64 i)
to_key (name s) = ArrayKey.string s

abbrev pub is_readable : HashKey → Bool
is_readable (index i) = true
is_readable (name s) = is_utf8 s

module _ (D : Type 0) (info : ℕ) (zs : ZendStr) (e : info % 256 ≡ Tag.string) where
  string_type : get_type {D = D} (zval info (str_ zs)) ≡ DataType.string
  unfolding get_type of_u32 has
  string_type = rw e refl

  string_not_long : is_long {D = D} (zval info (str_ zs)) ≡ false
  unfolding is_long
  string_not_long = ground (arith, string_type)

  string_is_string : is_string {D = D} (zval info (str_ zs)) ≡ true
  unfolding is_string
  string_is_string = ground (arith, string_type)

  string_dereference : dereference {D = D} (zval info (str_ zs)) ≡ zval info (str_ zs)
  unfolding dereference is_reference is_indirect
  string_dereference = ground (arith, string_type)

  string_long : long {D = D} (zval info (str_ zs)) ≡ none
  unfolding long
  string_long = ground (arith, string_dereference, string_not_long)

  string_str : str {D = D} (zval info (str_ zs)) ≡ to_option (as_str zs).0
  unfolding str zend_str
  string_str = ground (arith, string_is_string)

long_key :
    {D : Type 0} (i n : ℕ)
    → (key_or_number {D = D} n (zval Tag.long (lval (as_i64 i))) ≡ zval Tag.long (lval (as_i64 i)))
      × (from_zval {D = D} (zval Tag.long (lval (as_i64 i))) ≡ some (ArrayKey.long (as_i64 i)))
unfolding from_zval long is_long get_type of_u32 has
long_key i n = (refl, refl)

-- The zval of a key is read as the key, and unless it is readable not at all.
pub from_zval-key :
    {D : Type 0} (k : HashKey) (n : ℕ) (z : Zval D)
    → IsKeyZval k z
    → (key_or_number n z ≡ z) × (from_zval z ≡ (if is_readable k then some (to_key k) else none))
unfolding from_zval
from_zval-key (index i) n z h = rw h (long_key i n)
from_zval-key {D} (name s) n z (info, zs, same, tag, bytes, sound) = rw same (
    ground (
      arith,
      string_not_long D info zs tag,
      string_is_string D info zs tag,
      string_long D info zs tag,
      string_str D info zs tag,
      as_str_lem zs sound,
      bytes,
    ))

pub type_exists : (php85 : Bool) (k : HashKey) → is_non_existent php85 (type_of k) ≡ false
unfolding is_non_existent
type_exists php85 (index i) = refl
type_exists php85 (name s) = refl

abbrev pub to_item : {V : Type 0} → HashKey × V → ArrayKey × V
to_item (k, v) = (to_key k, v)

abbrev pub IsReadable : {V : Type 0} → HashKey × V → Type 0
IsReadable (k, v) = is_readable k ≡ true

module _ {V D : Type 0} (z : ZendHash V) (c : Cursor D z) (lc : IsLawfulCursor z c) (php85 : Bool)
    (t : z.Table) where
  abbrev pub rest : Iter → List (HashKey × V)
  rest it = live (drop it.pos (z.slots t))

  abbrev pub advanced : Iter → Iter
  advanced it = record it { pos = c.move_forward t it.pos; current_num = it.current_num + 1 }

  pub next_end : (it : Iter) → it.end_num ≤ it.current_num → next z c php85 t it ≡ (done, it)
  unfolding next next_zval
  next_end it h = ground arith

  pub next_slot :
      (it : Iter) (k : HashKey) (v : V) (es : List (HashKey × V))
      → it.current_num < it.end_num
      → rest it ≡ (k, v) ∷ es
      → next z c php85 t it
        ≡ (step_key (if is_readable k then some (to_key k) else none) v, advanced it)
  unfolding next next_zval
  next_slot it k v es h e =
      let at = lc.at_slot t it.pos k v es e in
      let key = from_zval-key k it.current_num (c.current_key t it.pos) at.2 in
      ground (arith, at.0, at.1, key, type_exists php85 k)

  drain-rest :
      (fuel : ℕ) (it : Iter) (es : List (HashKey × V))
      → rest it ≡ es
      → it.current_num + length es ≡ it.end_num
      → length es < fuel
      → All IsReadable es
      → drain z c php85 t fuel it ≡ finished (map to_item es)
  unfolding drain
  drain-rest zero it es e n f r = absurd (omega (arith, f))
  drain-rest (suc fuel) it [] e n f r = rw (next_end it (omega arith), drain) refl
  drain-rest (suc fuel) it ((k, v) ∷ es) e n f r =
      let step = next_slot it k v es (omega arith) e in
      rw (step, drain, r.0, step)
        (ap (add (to_key k, v)) (
          drain-rest fuel (advanced it) es (lc.live-move_forward t it.pos ∙ ap tail e) (omega arith)
            (omega arith) r.1))

  drain_panic :
      (fuel : ℕ) (it : Iter) (es fs : List (HashKey × V)) (s : Bytes) (v : V)
      → rest it ≡ es ++ (name s, v) ∷ fs
      → it.current_num + length es < it.end_num
      → length es < fuel
      → All IsReadable es
      → is_utf8 s ≡ false
      → drain z c php85 t fuel it ≡ panicked
  unfolding drain
  drain_panic zero it es fs s v e n f r u = absurd (omega (arith, f))
  drain_panic (suc fuel) it [] fs s v e n f r u =
      rw (next_slot it (name s) v fs (omega arith) e, drain, u) refl
  drain_panic (suc fuel) it ((k, w) ∷ es) fs s v e n f r u =
      let step = next_slot it k w (es ++ (name s, v) ∷ fs) (omega arith) e in
      rw (step, drain, r.0, step)
        (ap (add (to_key k, w)) (
          drain_panic fuel (advanced it) es fs s v (lc.live-move_forward t it.pos ∙ ap tail e)
            (omega arith) (omega arith) r.1 u))

module _ {V D : Type 0} (z : ZendHash V) (l : IsLawful z) (c : Cursor D z) (lc : IsLawfulCursor z c)
    (php85 : Bool) (t : z.Table) where
  -- A loop over a hash table whose string keys are UTF-8 ends: with one call of `next` more than there
  -- are entries it yields every entry once, in their order, deleted slots or not.
  pub drain-entries :
      (fuel : ℕ)
      → length (entries z t) < fuel
      → All IsReadable (entries z t)
      → drain z c php85 t fuel (new z c php85 t) ≡ finished (map to_item (entries z t))
  unfolding new
  drain-entries fuel f r =
      drain-rest z c lc php85 t fuel (new z c php85 t) (entries z t) refl
        (omega (arith, l.count-entries t)) f r

  -- A loop over a hash table with a string key that is not UTF-8 panics when it comes to the first such
  -- key.
  pub drain-not_utf8 :
      (fuel : ℕ) (es fs : List (HashKey × V)) (s : Bytes) (v : V)
      → entries z t ≡ es ++ (name s, v) ∷ fs
      → All IsReadable es
      → is_utf8 s ≡ false
      → length es < fuel
      → drain z c php85 t fuel (new z c php85 t) ≡ panicked
  unfolding new
  drain-not_utf8 fuel es fs s v e r u f =
      drain_panic z c lc php85 t fuel (new z c php85 t) es fs s v e
        (omega (arith, l.count-entries t, ap length e, length-append es ((name s, v) ∷ fs))) f r u
