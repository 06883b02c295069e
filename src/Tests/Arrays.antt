-- ===== src/Tests/Arrays.antt =====
-- The theorems on src/types/array at concrete inputs.
use ext_php_rs.Prelude.{
  ℕ, ◌+◌, ◌-◌, true, false, none, some, List, [], ◌∷◌, ◌++◌, codes, ltb, if◌then◌else◌, length, map,
  ◌≡◌, refl, arith,
}
use ext_php_rs.Prelude.Int.{ℤ, pos, negsuc}
use ext_php_rs.Error.{Error, Result, ok, err}
use ext_php_rs.Text.Utf8.{is_utf8}
use ext_php_rs.DataType.{of_u32, has}
use ext_php_rs.DataType.Tag
use ext_php_rs.ArrayKey.{of_i64, to_i64}
use ext_php_rs.Zval.Value.{
  Zval, zval, lval, long, get_type, is_long, is_reference, is_indirect, dereference,
}
use ext_php_rs.Array.Entries.{HashKey, index, name}
use ext_php_rs.Array.Zend.{entries, live}
use ext_php_rs.Array.Table.{get, as_ulong}
use ext_php_rs.Array.Table.Map.{hash_key, MapLaws, table-MapLaws}
use ext_php_rs.Array.Entry.{entry, or_insert, and_modify}
use ext_php_rs.Array.Entry.Laws.{DiffersAt, and_modify-or_insert}
use ext_php_rs.Array.Iter.{finished, new, drain}
use ext_php_rs.Array.Iter.Forward.{to_item, drain-entries}
use ext_php_rs.Array.Iter.Ends.{both_ends, both_ends-entries}
use ext_php_rs.Array.Loop.{returned}
use ext_php_rs.Array.Convert.{
  table_of_list, list_of_table, table_of_set, table_of_pairs, pairs_of_table,
}
use ext_php_rs.Array.Convert.RoundTrip.{list_of_table-table_of_list}
use ext_php_rs.Array.Convert.Pairs.{AllApart, Returns, pairs_of_table-table_of_pairs}
use ext_php_rs.Tests.Tables.{Packed, packed, packed-IsLawful, walk, walk-IsLawfulCursor}

-- A conversion that takes the numbers below ten.
abbrev small : ℕ → Result ℕ
small n = if ltb n 10 then ok n else err Error.integer_overflow

abbrev two : Packed ℕ
two = record { es = (name (codes "a"), 5) ∷ (index 7, 6) ∷ []; free = 8 }

abbrev three : Packed ℕ
three = record { es = (name (codes "a"), 5) ∷ (index 7, 6) ∷ (index 9, 4) ∷ []; free = 8 }

table-MapLaws_example : MapLaws packed small
table-MapLaws_example = table-MapLaws packed packed-IsLawful small

and_modify-or_insert_example :
    (t : Packed ℕ) × (v : ℕ) × (or_insert packed small
        (and_modify packed (λ n. n + 1) (entry packed (of_i64 (pos 7)) two))
        3
      ≡ ok (t, v))
    × (v ≡ elim (get packed (of_i64 (pos 7)) two) [ none ↦ 3 | some old ↦ old + 1 ])
    × DiffersAt packed packed-IsLawful small (of_i64 (pos 7)) (some v) two t
and_modify-or_insert_example =
    and_modify-or_insert packed packed-IsLawful small (λ n. n + 1) (of_i64 (pos 7)) two 3 3 refl

drain-entries_example :
    drain packed (walk {D = ℕ}) true two 3 (new packed (walk {D = ℕ}) true two)
    ≡ finished (map to_item (entries packed two))
unfolding live is_utf8
drain-entries_example =
    drain-entries packed packed-IsLawful (walk {D = ℕ}) walk-IsLawfulCursor true two 3 (omega arith)
      (refl, (refl, tt))

abbrev broken : Packed ℕ
broken = record { es = (index 0, 5) ∷ (name (255 ∷ []), 6) ∷ []; free = 1 }

abbrev entries_of_two : List (HashKey × ℕ)
entries_of_two = (name (codes "a"), 5) ∷ (index 7, 6) ∷ []

both_ends-entries_example :
    (left : List (HashKey × ℕ)) × (map to_item entries_of_two
      ≡ (both_ends packed
          (walk {D = ℕ})
          true
          two
          (false ∷ true ∷ [])
          (new packed (walk {D = ℕ}) true two)).0
        ++ (map to_item left
            ++ (both_ends packed
                (walk {D = ℕ})
                true
                two
                (false ∷ true ∷ [])
                (new packed (walk {D = ℕ}) true two)).1))
    × (length left ≡ length entries_of_two - 2)
unfolding is_utf8
both_ends-entries_example =
    both_ends-entries packed (walk {D = ℕ}) walk-IsLawfulCursor true two entries_of_two refl
      packed-IsLawful (false ∷ true ∷ []) (refl, (refl, tt))

abbrev of_long : ℤ → Zval ℕ
of_long i = zval Tag.long (lval i)

list_of_table-table_of_list_example :
    ((t : Packed (Zval ℕ)) × (table_of_list packed (λ i. ok (of_long i)) (pos 5 ∷ negsuc 2 ∷ [])
        ≡ ok t)
      × (list_of_table packed walk true long 3 t ≡ returned (ok (pos 5 ∷ negsuc 2 ∷ []))))
    × ((t : Packed (Zval ℕ)) × (table_of_set packed (λ i. ok (of_long i)) (pos 5 ∷ negsuc 2 ∷ [])
          ≡ ok t)
        × (list_of_table packed walk true long 3 t ≡ returned (ok (pos 5 ∷ negsuc 2 ∷ []))))
unfolding long is_long dereference is_reference is_indirect get_type of_u32 has
list_of_table-table_of_list_example =
    list_of_table-table_of_list packed packed-IsLawful walk walk-IsLawfulCursor true long
      (λ i. ok (of_long i)) of_long (pos 5 ∷ negsuc 2 ∷ []) 3 (omega arith) (omega arith)
      (refl, (refl, tt)) (refl, (refl, tt))

abbrev mixed : Packed (Zval ℕ)
mixed = record {
  es = (index 0, of_long (pos 5)) ∷ (index 1, zval Tag.null (lval (pos 0))) ∷ [];
  free = 2;
}

abbrev numbered_pairs : List (ℤ × ℤ)
numbered_pairs = (negsuc 0, pos 5) ∷ (pos 3, pos 6) ∷ []

pairs_of_table-table_of_pairs_example :
    (t : Packed (Zval ℕ)) × (table_of_pairs packed (λ i. ok (of_long i)) of_i64 numbered_pairs
      ≡ ok t)
    × (pairs_of_table packed walk true long to_i64 3 t ≡ returned (ok numbered_pairs))
unfolding AllApart Returns hash_key as_ulong of_i64 to_i64 long is_long dereference is_reference
    is_indirect get_type of_u32 has
pairs_of_table-table_of_pairs_example =
    pairs_of_table-table_of_pairs packed packed-IsLawful walk walk-IsLawfulCursor true long
      (λ i. ok (of_long i)) of_long to_i64 of_i64 numbered_pairs 3 (omega arith) (omega arith)
      ((refl, tt), (tt, tt)) (refl, (refl, tt)) ((refl, refl, refl), ((refl, refl, refl), tt))
