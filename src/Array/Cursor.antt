-- ===== src/Array/Cursor.antt =====
-- Zend's functions on the positions of a hash table, and what they are documented to return.
use ext_php_rs.Prelude.{
  ℕ, suc, ◌-◌, ◌<◌, ◌%◌, ◌^◌, Option, none, some, [], ◌∷◌, List, ◌≡◌, if◌then◌else◌, length, drop,
  get_elem?, ltb,
}
use ext_php_rs.Prelude.Int.{ℤ, pos, negsuc}
use ext_php_rs.DataType.Tag
use ext_php_rs.ZendStr.{ZendStr}
use ext_php_rs.ZendStr.Utf8.{IsSound}
use ext_php_rs.Zval.Value.{Zval, zval, lval, str_}
use ext_php_rs.Array.Entries.{HashKey, index, name}
use ext_php_rs.Array.Zend.{ZendHash, live}

-- `D` is `f64`. A position is one of a slot; a null pointer to a value is nothing.
pub record Cursor (D : Type 0) {V : Type 0} (z : ZendHash V) : Type 0 where
  pub key_type : z.Table → ℕ → ℤ
  pub current_key : z.Table → ℕ → Zval D
  pub current_data : z.Table → ℕ → Option V
  pub move_forward : z.Table → ℕ → ℕ
  pub move_backwards : z.Table → ℕ → ℕ

-- The two's complement of a number of 64 bits.
abbrev pub as_i64 : ℕ → ℤ
as_i64 n = if ltb n (2 ^ 63) then pos n else negsuc (2 ^ 64 - 1 - n)

abbrev pub type_of : HashKey → ℤ
type_of (name s) = pos 1
type_of (index i) = pos 2

-- The zval that a key is copied to.
abbrev pub IsKeyZval : {D : Type 0} → HashKey → Zval D → Type 0
IsKeyZval {D} (index i) k = k ≡ zval Tag.long (lval (as_i64 i))
IsKeyZval {D} (name s) k =
    (info : ℕ) × (zs : ZendStr) × (k ≡ zval info (str_ zs))
    × (info % 256 ≡ Tag.string)
    × (zs.bytes ≡ s)
    × IsSound zs

abbrev pub tail {ℓ} : {A : Type ℓ} → List A → List A
tail [] = []
tail (x ∷ xs) = xs

-- At a position stands the first slot in use from there on. A move forward is to behind that slot; a
-- move backwards to a slot in use right in front is to that slot.
pub record IsLawfulCursor {D V : Type 0} (z : ZendHash V) (c : Cursor D z) : Type 0 where
  pub at_end :
      (t : z.Table) (p : ℕ)
      → live (drop p (z.slots t)) ≡ []
      → (c.key_type t p ≡ pos 3) × (c.current_data t p ≡ none)
  pub at_slot :
      (t : z.Table) (p : ℕ) (k : HashKey) (v : V) (es : List (HashKey × V))
      → live (drop p (z.slots t)) ≡ (k, v) ∷ es
      → (c.key_type t p ≡ type_of k)
        × (c.current_data t p ≡ some v)
        × IsKeyZval k (c.current_key t p)
  pub live-move_forward :
      (t : z.Table) (p : ℕ)
      → live (drop (c.move_forward t p) (z.slots t)) ≡ tail (live (drop p (z.slots t)))
  pub move_backwards_suc :
      (t : z.Table) (p : ℕ) (e : HashKey × V)
      → get_elem? (z.slots t) p ≡ some (some e)
      → suc p < length (z.slots t)
      → c.move_backwards t (suc p) ≡ p
