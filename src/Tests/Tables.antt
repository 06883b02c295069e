-- ===== src/Tests/Tables.antt =====
-- A hash table without deleted slots that keeps to Zend's laws, for the tests.
use ext_php_rs.Prelude.{
  ℕ, zero, suc, ◌+◌, ◌-◌, false, Option, none, some, List, [], ◌∷◌, ◌++◌, length, drop, map, ◌≡◌,
  refl, sym, ap, ◌∙◌, arith,
}
use ext_php_rs.Prelude.Int.{ℤ, pos}
use ext_php_rs.DataType.Tag
use ext_php_rs.Zval.Value.{Zval, zval, lval, str_}
use ext_php_rs.Array.Entries.{HashKey, index, name, lookup, put, erase}
use ext_php_rs.Array.Zend.{ZendHash, IsLawful, live, entries, status}
use ext_php_rs.Array.Cursor.{Cursor, IsLawfulCursor, IsKeyZval, as_i64, type_of, tail}
use ext_php_rs.Array.Iter.Slots.{live-some, drop-some}

pub record Packed (V : Type 0) : Type 0 where
  pub es : List (HashKey × V)
  pub free : ℕ

abbrev pub key_zval : {D : Type 0} → HashKey → Zval D
key_zval (index i) = zval Tag.long (lval (as_i64 i))
key_zval (name s) =
    zval Tag.string (str_ (record { bytes = s; interned = false; known_valid_utf8 = false }))

key_zval-IsKeyZval : (D : Type 0) (k : HashKey) → IsKeyZval {D = D} k (key_zval k)
key_zval-IsKeyZval D (index i) = refl
key_zval-IsKeyZval D (name s) = (Tag.string, _, refl, refl, refl, refl)

module _ {V : Type 0} where
  abbrev pub updated : HashKey → V → Packed V → Packed V × Option V
  updated k v t = (record t { es = put k v t.es }, some v)

  abbrev pub deleted : HashKey → Packed V → Packed V × ℤ
  deleted k t = (record t { es = erase k t.es }, status (lookup k t.es))

  abbrev pub packed : ZendHash V
  packed = record {
    Table = Packed V;
    new_array = λ n. record { es = []; free = 0 };
    array_count = λ t. length t.es;
    num_of_elements = λ t. length t.es;
    clean = λ t. record { es = []; free = 0 };
    index_find = λ t i. lookup (index i) t.es;
    str_find = λ t s. lookup (name s) t.es;
    find = λ t s. lookup (name s) t.es;
    index_update = λ t i v. updated (index i) v t;
    str_update = λ t s v. updated (name s) v t;
    update = λ t s v. updated (name s) v t;
    next_index_insert =
        λ t v. (record { es = t.es ++ (index t.free, v) ∷ []; free = t.free + 1 }, some v);
    index_del = λ t i. deleted (index i) t;
    str_del = λ t s. deleted (name s) t;
    del = λ t s. deleted (name s) t;
    assign = λ t k v. record t { es = put k v t.es };
    slots = λ t. map some t.es;
    next_free = λ t. t.free;
  }

  packed-entries : (t : Packed V) → entries packed t ≡ t.es
  packed-entries t = live-some t.es

  updated-entries :
      (k : HashKey) (v : V) (t : Packed V)
      → live (map some (put k v t.es)) ≡ put k v (live (map some t.es))
  updated-entries k v t = live-some (put k v t.es) ∙ ap (put k v) (sym (live-some t.es))

  deleted-entries :
      (k : HashKey) (t : Packed V) → live (map some (erase k t.es)) ≡ erase k (live (map some t.es))
  deleted-entries k t = live-some (erase k t.es) ∙ ap (erase k) (sym (live-some t.es))

  status-entries :
      (k : HashKey) (t : Packed V)
      → status (lookup k t.es) ≡ status (lookup k (live (map some t.es)))
  status-entries k t = ap (λ es. status (lookup k es)) (sym (live-some t.es))

  pub packed-IsLawful : IsLawful packed
  packed-IsLawful = record {
    entries-new_array = λ n. live-some [];
    entries-clean = λ t. live-some [];
    count-entries = λ t. ap length (sym (live-some t.es));
    num_of_elements-entries = λ t. ap length (sym (live-some t.es));
    index_find-entries = λ t i. ap (lookup (index i)) (sym (live-some t.es));
    str_find-entries = λ t s. ap (lookup (name s)) (sym (live-some t.es));
    find-entries = λ t s. ap (lookup (name s)) (sym (live-some t.es));
    index_update-Updates = λ t i v. (updated-entries (index i) v t, refl);
    str_update-Updates = λ t s v. (updated-entries (name s) v t, refl);
    update-Updates = λ t s v. (updated-entries (name s) v t, refl);
    index_del-Deletes = λ t i. (deleted-entries (index i) t, status-entries (index i) t);
    str_del-Deletes = λ t s. (deleted-entries (name s) t, status-entries (name s) t);
    del-Deletes = λ t s. (deleted-entries (name s) t, status-entries (name s) t);
    entries-assign = λ t k v w h. updated-entries k v t;
    next_free-new_array = λ n. refl;
    entries-next_index_insert = λ t v h.
        live-some (t.es ++ (index t.free, v) ∷ [])
        ∙ ap (λ es. es ++ (index t.free, v) ∷ []) (sym (live-some t.es));
    next_free-next_index_insert = λ t v h. refl;
  }

  abbrev pub type_at : List (HashKey × V) → ℤ
  type_at [] = pos 3
  type_at ((k, v) ∷ es) = type_of k

  abbrev pub key_at : {D : Type 0} → List (HashKey × V) → Zval D
  key_at [] = zval Tag.null (lval (pos 0))
  key_at ((k, v) ∷ es) = key_zval k

  abbrev pub data_at : List (HashKey × V) → Option V
  data_at [] = none
  data_at ((k, v) ∷ es) = some v

  abbrev pub walk : {D : Type 0} → Cursor D packed
  walk = record {
    key_type = λ t p. type_at (drop p t.es);
    current_key = λ t p. key_at (drop p t.es);
    current_data = λ t p. data_at (drop p t.es);
    move_forward = λ t p. suc p;
    move_backwards = λ t p. p - 1;
  }

  live-drop : (es : List (HashKey × V)) (p : ℕ) → live (drop p (map some es)) ≡ drop p es
  live-drop es p = ap live (drop-some p es) ∙ live-some (drop p es)

  drop-suc : (es : List (HashKey × V)) (p : ℕ) → drop (suc p) es ≡ tail (drop p es)
  drop-suc [] zero = refl
  drop-suc [] (suc p) = refl
  drop-suc (e ∷ es) zero = refl
  drop-suc (e ∷ es) (suc p) = drop-suc es p

  nil_at : (es : List (HashKey × V)) → es ≡ [] → (type_at es ≡ pos 3) × (data_at es ≡ none)
  nil_at [] e = (refl, refl)
  nil_at (x ∷ es) e = absurd (omega (arith, ap length e))

  cons_at :
      (D : Type 0) (es fs : List (HashKey × V)) (k : HashKey) (v : V)
      → es ≡ (k, v) ∷ fs
      → (type_at es ≡ type_of k) × (data_at es ≡ some v) × IsKeyZval {D = D} k (key_at es)
  cons_at D es fs k v e = rw e (refl, refl, key_zval-IsKeyZval D k)

  pub walk-IsLawfulCursor : {D : Type 0} → IsLawfulCursor packed (walk {D = D})
  walk-IsLawfulCursor {D = D} = record {
    at_end = λ t p h. nil_at (drop p t.es) (sym (live-drop t.es p) ∙ h);
    at_slot = λ t p k v es h. cons_at D (drop p t.es) es k v (sym (live-drop t.es p) ∙ h);
    live-move_forward =
        λ t p. live-drop t.es (suc p) ∙ drop-suc t.es p ∙ ap tail (sym (live-drop t.es p));
    move_backwards_suc = λ t p e h k. omega arith;
  }
