-- ===== src/Zval/Value/View.antt =====
-- The value that PHP code sees in a zval, and the accessors as readers of it.
use ext_php_rs.Prelude.{ℕ, Bool, true, false, Option, none, some, ◌≡◌, sym, ap, ◌∙◌, arith}
use ext_php_rs.Prelude.Int.{ℤ}
use ext_php_rs.DataType.{DataType}
use ext_php_rs.ZendStr.{ZendStr}
use ext_php_rs.Zval.Value.{
  Zval, zval, Value, lval, dval, str_, arr, obj, res, value, get_type, dereference, is_reference,
  is_indirect, ref_, zv, long, bool, double, zend_str, resource, array, object,
}

-- `other` stands for what no accessor reads.
pub data View (D : Type 0) : Type 0 where
  null other : View D
  bool_of : Bool → View D
  long_of : ℤ → View D
  double_of : D → View D
  string_of : ZendStr → View D
  array_of object_of resource_of : ℕ → View D

module _ {D : Type 0} where
  -- The cell that a type announces.
  abbrev pub view_cell : DataType → Value D → View D
  view_cell DataType.null v = View.null
  view_cell DataType.bool_true v = View.bool_of true
  view_cell DataType.bool_false v = View.bool_of false
  view_cell DataType.long (lval n) = View.long_of n
  view_cell DataType.double (dval d) = View.double_of d
  view_cell DataType.string (str_ s) = View.string_of s
  view_cell DataType.array (arr p) = View.array_of p
  view_cell (DataType.object c) (obj p) = View.object_of p
  view_cell DataType.resource (res p) = View.resource_of p
  view_cell _ _ = View.other

  -- What a reference refers to, or an indirection leads to, is seen in its place; what that one refers
  -- to in turn is not.
  abbrev pub view_behind : DataType → Value D → View D
  view_behind DataType.reference (ref_ target) = view_cell (get_type target) (value target)
  view_behind DataType.indirect (zv target) = view_cell (get_type target) (value target)
  view_behind t v = view_cell t v

  abbrev pub view : Zval D → View D
  view z = view_behind (get_type z) (value z)

  -- What the code's own `dereference` leads to.
  abbrev pub seen : Zval D → View D
  seen z = view_cell (get_type (dereference z)) (value (dereference z))

  pub view-seen : (z : Zval D) → view z ≡ seen z
  unfolding dereference is_reference is_indirect
  view-seen (zval info v) = ground arith

  abbrev pub as_long : View D → Option ℤ
  as_long (View.long_of n) = some n
  as_long _ = none

  abbrev pub as_bool : View D → Option Bool
  as_bool (View.bool_of b) = some b
  as_bool _ = none

  abbrev pub as_double : View D → Option D
  as_double (View.double_of d) = some d
  as_double _ = none

  abbrev pub as_string : View D → Option ZendStr
  as_string (View.string_of s) = some s
  as_string _ = none

  abbrev pub as_array : View D → Option ℕ
  as_array (View.array_of p) = some p
  as_array _ = none

  abbrev pub as_object : View D → Option ℕ
  as_object (View.object_of p) = some p
  as_object _ = none

  abbrev pub as_resource : View D → Option ℕ
  as_resource (View.resource_of p) = some p
  as_resource _ = none

  pub long-seen : (z : Zval D) → long z ≡ as_long (seen z)
  unfolding long
  long-seen (zval info v) = ground arith

  pub bool-seen : (z : Zval D) → bool z ≡ as_bool (seen z)
  unfolding bool
  bool-seen (zval info v) = ground arith

  pub double-seen : (z : Zval D) → double z ≡ as_double (seen z)
  unfolding double
  double-seen (zval info v) = ground arith

  pub zend_str-seen : (z : Zval D) → zend_str z ≡ as_string (seen z)
  unfolding zend_str
  zend_str-seen (zval info v) = ground arith

  pub array-seen : (z : Zval D) → array z ≡ as_array (seen z)
  unfolding array
  array-seen (zval info v) = ground arith

  pub object-seen : (z : Zval D) → object z ≡ as_object (seen z)
  unfolding object
  object-seen (zval info v) = ground arith

  pub resource-seen : (z : Zval D) → resource z ≡ as_resource (seen z)
  unfolding resource
  resource-seen (zval info v) = ground arith

-- What the accessors return on a zval, by its view.
pub record Reads {D : Type 0} (z : Zval D) (v : View D) : Type 0 where
  pub at_long : long z ≡ as_long v
  pub at_bool : bool z ≡ as_bool v
  pub at_double : double z ≡ as_double v
  pub at_string : zend_str z ≡ as_string v
  pub at_array : array z ≡ as_array v
  pub at_object : object z ≡ as_object v
  pub at_resource : resource z ≡ as_resource v

-- Each of the seven accessors `long`, `bool`, `double`, `zend_str`, `array`, `object` and `resource`
-- returns what the zval has of that kind or, if it is a reference or an indirection, what the zval behind
-- it has, and that one alone.
pub accessors-view : {D : Type 0} (z : Zval D) → Reads z (view z)
accessors-view z = record {
  at_long = long-seen z ∙ ap as_long (sym (view-seen z));
  at_bool = bool-seen z ∙ ap as_bool (sym (view-seen z));
  at_double = double-seen z ∙ ap as_double (sym (view-seen z));
  at_string = zend_str-seen z ∙ ap as_string (sym (view-seen z));
  at_array = array-seen z ∙ ap as_array (sym (view-seen z));
  at_object = object-seen z ∙ ap as_object (sym (view-seen z));
  at_resource = resource-seen z ∙ ap as_resource (sym (view-seen z));
}
