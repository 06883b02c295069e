-- ===== src/Zval/Value.antt =====
-- The `zval` and its accessors. The union is one cell, and a pointer to an array, an object or a
-- resource is its address; a string is held by value, and so are the zvals behind a reference and an
-- indirection. `Zval.get_type` reads the low byte of the type word.
pub mod View
use ext_php_rs.Prelude.{ℕ, ◌%◌, Bool, true, false, Option, none, some, Bytes, if◌then◌else◌, ◌||◌}
use ext_php_rs.Prelude.Int.{ℤ}
use ext_php_rs.Error.{to_option}
use ext_php_rs.DataType.{DataType, of_u32}
use ext_php_rs.DataType.Tag
use ext_php_rs.ZendStr.{ZendStr, as_str}

-- `D` is `f64`. The first field of a zval is `u1.type_info`.
mutual
  pub data Zval (D : Type 0) : Type 0 where
    zval : ℕ → Value D → Zval D

  pub data Value (D : Type 0) : Type 0 where
    lval : ℤ → Value D
    dval : D → Value D
    str_ : ZendStr → Value D
    arr obj res ptr : ℕ → Value D
    ref_ zv : Zval D → Value D

-- The two tests of `bool` are a `match` on the type.
abbrev bool_of : DataType → Option Bool
bool_of DataType.bool_true = some true
bool_of DataType.bool_false = some false
bool_of _ = none

abbrev or_else : Option Bool → Option Bool → Option Bool
or_else (some b) o = some b
or_else none o = o

module _ {D : Type 0} where
  abbrev pub type_info : Zval D → ℕ
  type_info (zval info v) = info

  abbrev pub value : Zval D → Value D
  value (zval info v) = v

  -- Reads of the union. Rust leaves the read of another cell undefined: here it gives nothing.
  abbrev pub read_lval : Value D → Option ℤ
  read_lval (lval n) = some n
  read_lval _ = none

  abbrev pub read_dval : Value D → Option D
  read_dval (dval d) = some d
  read_dval _ = none

  abbrev pub read_str : Value D → Option ZendStr
  read_str (str_ s) = some s
  read_str _ = none

  abbrev pub read_arr : Value D → Option ℕ
  read_arr (arr p) = some p
  read_arr _ = none

  abbrev pub read_obj : Value D → Option ℕ
  read_obj (obj p) = some p
  read_obj _ = none

  abbrev pub read_res : Value D → Option ℕ
  read_res (res p) = some p
  read_res _ = none

  abbrev pub read_ptr : Value D → Option ℕ
  read_ptr (ptr p) = some p
  read_ptr _ = none

  abbrev pub read_ref : Value D → Option (Zval D)
  read_ref (ref_ z) = some z
  read_ref _ = none

  abbrev pub read_zv : Value D → Option (Zval D)
  read_zv (zv z) = some z
  read_zv _ = none

  unfoldable pub get_type : Zval D → DataType
  get_type z = of_u32 (type_info z % 256)

  unfoldable pub is_long : Zval D → Bool
  is_long z = elim (get_type z) [ DataType.long ↦ true | _ ↦ false ]

  unfoldable pub is_null : Zval D → Bool
  is_null z = elim (get_type z) [ DataType.null ↦ true | _ ↦ false ]

  unfoldable pub is_true : Zval D → Bool
  is_true z = elim (get_type z) [ DataType.bool_true ↦ true | _ ↦ false ]

  unfoldable pub is_false : Zval D → Bool
  is_false z = elim (get_type z) [ DataType.bool_false ↦ true | _ ↦ false ]

  unfoldable pub is_bool : Zval D → Bool
  unfolding is_true is_false
  is_bool z = is_true z || is_false z

  unfoldable pub is_double : Zval D → Bool
  is_double z = elim (get_type z) [ DataType.double ↦ true | _ ↦ false ]

  unfoldable pub is_string : Zval D → Bool
  is_string z = elim (get_type z) [ DataType.string ↦ true | _ ↦ false ]

  unfoldable pub is_resource : Zval D → Bool
  is_resource z = elim (get_type z) [ DataType.resource ↦ true | _ ↦ false ]

  unfoldable pub is_array : Zval D → Bool
  is_array z = elim (get_type z) [ DataType.array ↦ true | _ ↦ false ]

  unfoldable pub is_object : Zval D → Bool
  is_object z = elim (get_type z) [ DataType.object _ ↦ true | _ ↦ false ]

  unfoldable pub is_reference : Zval D → Bool
  is_reference z = elim (get_type z) [ DataType.reference ↦ true | _ ↦ false ]

  unfoldable pub is_indirect : Zval D → Bool
  is_indirect z = elim (get_type z) [ DataType.indirect ↦ true | _ ↦ false ]

  unfoldable pub is_ptr : Zval D → Bool
  is_ptr z = elim (get_type z) [ DataType.ptr ↦ true | _ ↦ false ]

  unfoldable pub is_scalar : Zval D → Bool
  is_scalar z = elim (get_type z) [
    | DataType.long ↦ true
    | DataType.double ↦ true
    | DataType.string ↦ true
    | DataType.bool_true ↦ true
    | DataType.bool_false ↦ true
    | _ ↦ false
  ]

  abbrev pub or_self : Zval D → Option (Zval D) → Zval D
  or_self z none = z
  or_self z (some target) = target

  -- `dereference`, and `dereference_mut`, which returns the same zval to write to.
  unfoldable pub dereference : Zval D → Zval D
  unfolding is_reference is_indirect
  dereference z =
      if is_reference z
      then or_self z (read_ref (value z))
      else if is_indirect z
      then or_self z (read_zv (value z))
      else z

  unfoldable pub long : Zval D → Option ℤ
  unfolding is_long dereference
  long z =
      if is_long z
      then read_lval (value z)
      else if is_long (dereference z)
      then read_lval (value (dereference z))
      else none

  unfoldable pub bool : Zval D → Option Bool
  unfolding dereference
  bool z = or_else (bool_of (get_type z)) (bool_of (get_type (dereference z)))

  unfoldable pub double : Zval D → Option D
  unfolding is_double dereference
  double z =
      if is_double z
      then read_dval (value z)
      else if is_double (dereference z)
      then read_dval (value (dereference z))
      else none

  unfoldable pub zend_str : Zval D → Option ZendStr
  unfolding is_string dereference
  zend_str z =
      if is_string z
      then read_str (value z)
      else if is_string (dereference z)
      then read_str (value (dereference z))
      else none

  -- `zend_str().and_then(|zs| zs.as_str().ok())`; `string` copies the text.
  unfoldable pub str : Zval D → Option Bytes
  unfolding zend_str
  str z = elim (zend_str z) [ none ↦ none | some zs ↦ to_option (as_str zs).0 ]

  unfoldable pub resource : Zval D → Option ℕ
  unfolding is_resource dereference
  resource z =
      if is_resource z
      then read_res (value z)
      else if is_resource (dereference z)
      then read_res (value (dereference z))
      else none

  unfoldable pub array : Zval D → Option ℕ
  unfolding is_array dereference
  array z =
      if is_array z
      then read_arr (value z)
      else if is_array (dereference z)
      then read_arr (value (dereference z))
      else none

  unfoldable pub object : Zval D → Option ℕ
  unfolding is_object dereference
  object z =
      if is_object z
      then read_obj (value z)
      else if is_object (dereference z)
      then read_obj (value (dereference z))
      else none

  unfoldable pub indirect : Zval D → Option (Zval D)
  unfolding is_indirect
  indirect z = if is_indirect z then read_zv (value z) else none

  unfoldable pub reference : Zval D → Option (Zval D)
  unfolding is_reference
  reference z = if is_reference z then read_ref (value z) else none

  -- `ptr`, a name that the cell has here.
  unfoldable pub as_ptr : Zval D → Option ℕ
  unfolding is_ptr
  as_ptr z = if is_ptr z then read_ptr (value z) else none
