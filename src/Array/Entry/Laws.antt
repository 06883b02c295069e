-- ===== src/Array/Entry/Laws.antt =====
-- What an entry that `ZendHashTable::entry` made does to the table.
use ext_php_rs.Prelude.{
  true, Option, none, some, ◌≡◌, refl, sym, ap, ◌∙◌, if◌then◌else◌, Bool-cases, Option-cases, inl,
  inr,
}
use ext_php_rs.Error.{Result, ok, err, map_ok}
use ext_php_rs.ArrayKey.{ArrayKey}
use ext_php_rs.Array.Entries.{key_eq, key_eq_iff, lookup, lookup-put}
use ext_php_rs.Array.Zend.{ZendHash, IsLawful, entries}
use ext_php_rs.Array.Table.{get, write, remove}
use ext_php_rs.Array.Table.Map.{
  hash_key, get-entries, has_key-get, write-Updates, get-write, get-delete,
}
use ext_php_rs.Array.Entry.{
  Entry, occupied, vacant, entry, get_value_mut, insert_value, into_mut, or_insert, or_insert_with,
  or_insert_with_key, or_default, modify, and_modify, replace, remove_entry, take_value,
}

module _ {V W : Type 0} (z : ZendHash V) (l : IsLawful z) (into_zval : W → Result V) where
  -- A table that differs from another in the value of one key.
  abbrev pub DiffersAt : ArrayKey → Option V → z.Table → z.Table → Type 0
  DiffersAt k o t t' =
      (j : ArrayKey) → get z j t' ≡ (if key_eq (hash_key k) (hash_key j) then o else get z j t)

  key_eq_self : (k : ArrayKey) → key_eq (hash_key k) (hash_key k) ≡ true
  key_eq_self k = (key_eq_iff (hash_key k) (hash_key k)).1 refl

  -- Equal keys of Zend are looked up alike.
  get_same :
      (k j : ArrayKey) (t : z.Table)
      → key_eq (hash_key k) (hash_key j) ≡ true
      → get z j t ≡ get z k t
  get_same k j t e =
      get-entries z l j t
      ∙ ap (λ h. lookup h (entries z t)) (sym ((key_eq_iff (hash_key k) (hash_key j)).0 e))
      ∙ sym (get-entries z l k t)

  same-DiffersAt : (k : ArrayKey) (o : Option V) (t : z.Table) → get z k t ≡ o → DiffersAt k o t t
  same-DiffersAt k o t e j = elim (Bool-cases (key_eq (hash_key k) (hash_key j))) [
    | inl same ↦ rw same (get_same k j t same ∙ e)
    | inr other ↦ rw other
  ]

  insert_value_lem :
      (k : ArrayKey) (t : z.Table) (d : W) (v : V)
      → into_zval d ≡ ok v
      → insert_value z into_zval k t d ≡ ok ((write z k v t).0, v)
  unfolding insert_value
  insert_value_lem k t d v e = rw (e, (write-Updates z l k v t).1) refl

  get-assign :
      (k j : ArrayKey) (t : z.Table) (v w : V)
      → get z k t ≡ some w
      → get z j (z.assign t (hash_key k) v)
        ≡ (if key_eq (hash_key k) (hash_key j) then some v else get z j t)
  get-assign k j t v w e =
      get-entries z l j (z.assign t (hash_key k) v)
      ∙ ap (lookup (hash_key j))
          (l.entries-assign t (hash_key k) v w (sym (get-entries z l k t) ∙ e))
      ∙ lookup-put (hash_key k) (hash_key j) v (entries z t)
      ∙ ap (λ o. if key_eq (hash_key k) (hash_key j) then some v else o) (sym (get-entries z l j t))

  entry_occupied :
      (k : ArrayKey) (t : z.Table) (v : V) → get z k t ≡ some v → entry z k t ≡ occupied t k
  unfolding entry
  entry_occupied k t v e = rw (has_key-get z l k t, e) refl

  entry_vacant : (k : ArrayKey) (t : z.Table) → get z k t ≡ none → entry z k t ≡ vacant t k
  unfolding entry
  entry_vacant k t e = rw (has_key-get z l k t, e) refl

  -- `entry(k).and_modify(f).or_insert(d)` never fails where the default can be converted: it applies `f` to
  -- the value of the key, or else inserts the default, returns the new value, and changes no other key.
  pub and_modify-or_insert :
      (f : V → V) (k : ArrayKey) (t : z.Table) (d : W) (w : V)
      → into_zval d ≡ ok w
      → (t' : z.Table) × (v : V) × (or_insert z into_zval (and_modify z f (entry z k t)) d
          ≡ ok (t', v))
        × (v ≡ elim (get z k t) [ none ↦ w | some old ↦ f old ])
        × DiffersAt k (some v) t t'
  unfolding or_insert and_modify into_mut get_value_mut
  and_modify-or_insert f k t d w e = elim (Option-cases (get z k t)) [
    | inl absent ↦ (
      (write z k w t).0,
      w,
      ap (λ n. or_insert z into_zval (and_modify z f n) d) (entry_vacant k t absent)
          ∙ insert_value_lem k t d w e,
      rw absent,
      λ j. get-write z l k j w t,
    )
    | inr (old, found) ↦
        let t' = z.assign t (hash_key k) (f old) in
        let now : get z k t' ≡ some (f old) =
          get-assign k k t (f old) old found ∙ rw (key_eq_self k) in
        (
          t',
          f old,
          ap (λ n. or_insert z into_zval (and_modify z f n) d) (entry_occupied k t old found)
              ∙ rw (found, modify, now) refl,
          rw found,
          λ j. get-assign k j t (f old) old found,
        )
  ]

  -- The four ways to fill an entry agree, the last for a default of `Zval::new()`.
  pub or_insert_with_lem :
      (n : Entry z) (d : W)
      → (or_insert_with z into_zval n (λ _. d) ≡ or_insert z into_zval n d)
        × (or_insert_with_key z into_zval n (λ _. d) ≡ or_insert z into_zval n d)
        × (or_default z into_zval d n ≡ or_insert z into_zval n d)
  unfolding or_insert or_insert_with or_insert_with_key or_default
  or_insert_with_lem (occupied t k) d = (refl, refl, refl)
  or_insert_with_lem (vacant t k) d = (refl, refl, refl)

  inserted_value :
      (k j : ArrayKey) (t : z.Table) (d : W) (o : Result V)
      → into_zval d ≡ o
      → (map_ok (λ r. r.1) (insert_value z into_zval k t d) ≡ o)
        × (map_ok (λ r. get z j r.0) (insert_value z into_zval k t d)
            ≡ map_ok (λ w. if key_eq (hash_key k) (hash_key j) then some w else get z j t) o)
  inserted_value k j t d (ok w) e =
      let same = insert_value_lem k t d w e in
      (rw same refl, rw same (ap ok (get-write z l k j w t)))
  inserted_value k j t d (err x) e = unfold insert_value in rw e (refl, refl)

  -- `entry(k).or_insert(d)` returns the value that is there and leaves the table alone, whether or not
  -- the default can be converted; where nothing is there, it fails with the error of the conversion, or
  -- returns the converted default, and has inserted it under that key and changed no other.
  pub or_insert-entry :
      (k j : ArrayKey) (t : z.Table) (d : W)
      → (map_ok (λ r. r.1) (or_insert z into_zval (entry z k t) d)
          ≡ elim (get z k t) [ none ↦ into_zval d | some old ↦ ok old ])
        × (map_ok (λ r. get z j r.0) (or_insert z into_zval (entry z k t) d) ≡ elim (get z k t) [
          | none ↦
              map_ok
                (λ w. if key_eq (hash_key k) (hash_key j) then some w else get z j t)
                (into_zval d)
          | some old ↦ ok (get z j t)
        ])
  unfolding or_insert into_mut get_value_mut
  or_insert-entry k j t d = elim (Option-cases (get z k t)) [
    | inl absent ↦
        let new = inserted_value k j t d (into_zval d) refl in
        rw (entry_vacant k t absent, absent) new
    | inr (old, found) ↦ rw (entry_occupied k t old found, found) (refl, refl)
  ]

  -- `insert` of an occupied entry returns the old value and changes only that key; `remove_entry` and
  -- `remove` return it with or without the key, and take the key away.
  pub occupied-old :
      (k : ArrayKey) (t : z.Table) (d : W) (w old : V)
      → get z k t ≡ some old
      → into_zval d ≡ ok w
      → (t' : z.Table) × (replace z into_zval t k d ≡ ok (t', some old))
        × DiffersAt k (some w) t t'
        × (remove_entry z t k ≡ ((take_value z t k).0, k, some old))
        × ((take_value z t k).1 ≡ some old)
        × DiffersAt k none t (take_value z t k).0
  unfolding replace remove_entry take_value remove
  occupied-old k t d w old found converted = (
    (write z k w t).0,
    rw (insert_value_lem k t d w converted, found) refl,
    λ j. get-write z l k j w t,
    rw found refl,
    found,
    λ j. get-delete z l k j t,
  )
