-- ===== src/Array/Zend.antt =====
-- The functions of Zend's hash table that src/types/array calls, over an unknown table, and what they
-- are documented to do to the entries of the table.
use ext_php_rs.Prelude.{
  ℕ, ◌+◌, ◌<◌, ◌^◌, Option, none, some, [], ◌∷◌, ◌++◌, List, ◌≡◌, Bytes, length,
}
use ext_php_rs.Prelude.Int.{ℤ, pos, negsuc}
use ext_php_rs.Array.Entries.{HashKey, index, name, lookup, put, erase}

-- A pointer to a value is the value itself, or nothing where it is null. `assign` is a write through
-- the pointer to the value of a key.
pub record ZendHash (V : Type 0) : Type 1 where
  pub Table : Type 0
  pub new_array : ℕ → Table
  pub array_count : Table → ℕ
  pub num_of_elements : Table → ℕ
  pub clean : Table → Table
  pub index_find : Table → ℕ → Option V
  pub str_find : Table → Bytes → Option V
  pub find : Table → Bytes → Option V
  pub index_update : Table → ℕ → V → Table × Option V
  pub str_update : Table → Bytes → V → Table × Option V
  pub update : Table → Bytes → V → Table × Option V
  pub next_index_insert : Table → V → Table × Option V
  pub index_del : Table → ℕ → Table × ℤ
  pub str_del : Table → Bytes → Table × ℤ
  pub del : Table → Bytes → Table × ℤ
  pub assign : Table → HashKey → V → Table
  -- The slots in their order, deleted ones empty, and the next free index.
  pub slots : Table → List (Option (HashKey × V))
  pub next_free : Table → ℕ

-- The slots that are in use.
unfoldable pub live : {V : Type 0} → List (Option (HashKey × V)) → List (HashKey × V)
live [] = []
live (none ∷ ss) = live ss
live (some e ∷ ss) = e ∷ live ss

-- `SUCCESS` where the key was there, `FAILURE` where it was not.
abbrev pub status : {V : Type 0} → Option V → ℤ
status none = negsuc 0
status (some v) = pos 0

module _ {V : Type 0} (z : ZendHash V) where
  abbrev pub entries : z.Table → List (HashKey × V)
  entries t = live (z.slots t)

  -- What an update of a key does, and what a deletion does.
  abbrev pub Updates : HashKey → V → z.Table → z.Table × Option V → Type 0
  Updates k v t (t', p) = (entries t' ≡ put k v (entries t)) × (p ≡ some v)

  abbrev pub Deletes : HashKey → z.Table → z.Table × ℤ → Type 0
  Deletes k t (t', r) = (entries t' ≡ erase k (entries t)) × (r ≡ status (lookup k (entries t)))

  pub record IsLawful : Type 0 where
    pub entries-new_array : (n : ℕ) → entries (z.new_array n) ≡ []
    pub entries-clean : (t : z.Table) → entries (z.clean t) ≡ []
    pub count-entries : (t : z.Table) → z.array_count t ≡ length (entries t)
    pub num_of_elements-entries : (t : z.Table) → z.num_of_elements t ≡ length (entries t)
    pub index_find-entries : (t : z.Table) (i : ℕ) → z.index_find t i ≡ lookup (index i) (entries t)
    pub str_find-entries : (t : z.Table) (s : Bytes) → z.str_find t s ≡ lookup (name s) (entries t)
    pub find-entries : (t : z.Table) (s : Bytes) → z.find t s ≡ lookup (name s) (entries t)
    pub index_update-Updates :
        (t : z.Table) (i : ℕ) (v : V) → Updates (index i) v t (z.index_update t i v)
    pub str_update-Updates :
        (t : z.Table) (s : Bytes) (v : V) → Updates (name s) v t (z.str_update t s v)
    pub update-Updates : (t : z.Table) (s : Bytes) (v : V) → Updates (name s) v t (z.update t s v)
    pub index_del-Deletes : (t : z.Table) (i : ℕ) → Deletes (index i) t (z.index_del t i)
    pub str_del-Deletes : (t : z.Table) (s : Bytes) → Deletes (name s) t (z.str_del t s)
    pub del-Deletes : (t : z.Table) (s : Bytes) → Deletes (name s) t (z.del t s)
    pub entries-assign :
        (t : z.Table) (k : HashKey) (v w : V)
        → lookup k (entries t) ≡ some w
        → entries (z.assign t k v) ≡ put k v (entries t)
    -- The next free index is 0 in a new table; an insertion there puts it up by one, below the limit.
    pub next_free-new_array : (n : ℕ) → z.next_free (z.new_array n) ≡ 0
    pub entries-next_index_insert :
        (t : z.Table) (v : V)
        → z.next_free t < 2 ^ 63
        → entries (z.next_index_insert t v).0 ≡ entries t ++ (index (z.next_free t), v) ∷ []
    pub next_free-next_index_insert :
        (t : z.Table) (v : V)
        → z.next_free t < 2 ^ 63
        → z.next_free (z.next_index_insert t v).0 ≡ z.next_free t + 1
