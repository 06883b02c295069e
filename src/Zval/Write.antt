-- ===== src/Zval/Write.antt =====
-- The setters of src/types/zval.rs: what they store, and which counts of Zend they change. The union
-- holds a number, a float or an address, and a call into Zend is an entry of a log. `immortal` says of
-- an address whether `GC_IMMUTABLE` is set there.
pub mod Counts
pub mod Balance
pub mod Clone
use ext_php_rs.Prelude.{ℕ, ◌%◌, Bool, true, false, [], ◌∷◌, ◌++◌, List, ◌==◌, if◌then◌else◌, ◌||◌}
use ext_php_rs.Prelude.Int.{ℤ}
use ext_php_rs.DataType.{DataType, of_u32}
use ext_php_rs.DataType.Tag
use ext_php_rs.ZvalTypeFlags.{
  ref_counted, interned_string_ex, string_ex, array_ex, object_ex, resource_ex,
}

pub data Cell (D : Type 0) : Type 0 where
  lval : ℤ → Cell D
  dval : D → Cell D
  address : ℕ → Cell D

pub record Slot (D : Type 0) : Type 0 where
  pub type_info : ℕ
  pub value : Cell D

-- `ext_php_rs_zend_string_release`, `zval_ptr_dtor` of a zval with this type word, and `inc_count`.
pub data Call : Type 0 where
  string_release : ℕ → Call
  ptr_dtor : ℕ → ℕ → Call
  inc_count : ℕ → Call

module _ {D : Type 0} where
  -- `Zval::new`, whose pointer is null.
  abbrev pub new : Slot D
  new = record { type_info = Tag.null; value = address 0 }

  -- `self.value.str_.as_mut()`
  abbrev pub release_string : Cell D → List Call
  release_string (address p) = if p == 0 then [] else string_release p ∷ []
  release_string _ = []

  abbrev pub destroy : ℕ → Cell D → List Call
  destroy info (address p) = ptr_dtor info p ∷ []
  destroy info _ = []

  -- What `change_type` calls, by the type that the slot has.
  abbrev pub cleanup : DataType → Slot D → List Call
  cleanup DataType.string z = release_string z.value
  cleanup DataType.array z = destroy z.type_info z.value
  cleanup (DataType.object c) z = destroy z.type_info z.value
  cleanup DataType.resource z = destroy z.type_info z.value
  cleanup DataType.reference z = destroy z.type_info z.value
  cleanup DataType.constant_expression z = destroy z.type_info z.value
  cleanup _ z = []

  unfoldable pub change_type : ℕ → Slot D → Slot D × List Call
  change_type ty z = (record z { type_info = ty }, cleanup (of_u32 (z.type_info % 256)) z)

  -- A change of type and a write of the union.
  abbrev pub store : ℕ → Cell D → Slot D → Slot D × List Call
  store ty v z = let (changed, calls) = change_type ty z in (record changed { value = v }, calls)

  unfoldable pub set_zend_string : Bool → ℕ → Slot D → Slot D × List Call
  unfolding change_type
  set_zend_string is_interned val z =
      store (if is_interned then interned_string_ex else string_ex) (address val) z

  -- `interned` is the string that `ZendStr::new_interned` returns.
  unfoldable pub set_interned_string : ℕ → Slot D → Slot D × List Call
  unfolding change_type
  set_interned_string interned z = store interned_string_ex (address interned) z

  unfoldable pub set_long : ℤ → Slot D → Slot D × List Call
  unfolding change_type
  set_long val z = store Tag.long (lval val) z

  unfoldable pub set_double : D → Slot D → Slot D × List Call
  unfolding change_type
  set_double val z = store Tag.double (dval val) z

  unfoldable pub set_bool : Bool → Slot D → Slot D × List Call
  unfolding change_type
  set_bool val z = change_type (if val then Tag.bool_true else Tag.bool_false) z

  unfoldable pub set_null : Slot D → Slot D × List Call
  unfolding change_type
  set_null z = change_type Tag.null z

  unfoldable pub set_resource : ℕ → Slot D → Slot D × List Call
  unfolding change_type
  set_resource val z = store resource_ex (address val) z

  unfoldable pub set_object : ℕ → Slot D → Slot D × List Call
  unfolding change_type
  set_object val z =
      let (stored, calls) = store object_ex (address val) z in (stored, calls ++ inc_count val ∷ [])

  unfoldable pub set_hashtable : Bool → ℕ → Slot D → Slot D × List Call
  unfolding change_type
  set_hashtable is_immutable val z =
      store (if is_immutable then Tag.array else array_ex) (address val) z

  unfoldable pub set_ptr : ℕ → Slot D → Slot D × List Call
  set_ptr ptr z = (record { type_info = Tag.ptr; value = address ptr }, [])

  -- `release`, which takes the zval and drops it afterwards.
  unfoldable pub release : Slot D → Slot D × List Call
  unfolding change_type
  release z = change_type Tag.null (record z { type_info = Tag.null })

  -- `impl Drop for Zval`
  unfoldable pub drop : Slot D → Slot D × List Call
  unfolding change_type
  drop z = change_type Tag.null z

  abbrev pub counted : Cell D → List Call
  counted (address p) = inc_count p ∷ []
  counted _ = []

  -- The new zval, and the count that it makes; `contains` is that of `bitflags`.
  unfoldable pub shallow_clone : (ℕ → ℕ → Bool) → Slot D → Slot D × List Call
  shallow_clone contains z = (z, if contains z.type_info ref_counted then counted z.value else [])
