-- ===== src/Stub/Members.antt =====
-- src/describe/stub.rs: the stubs of what a class has, and the structs of src/describe/mod.rs for them.
use ext_php_rs.Prelude.{
  Bool, true, false, ◌&&◌, Option, none, some, List, [], ◌++◌, map, Bytes, codes, if◌then◌else◌,
}
use ext_php_rs.DataType.{DataType}
use ext_php_rs.Text.Str.{is_nil}
use ext_php_rs.Stub.Types.{Parameter, Retval, datatype_to_phpdoc, type_stub}
use ext_php_rs.Stub.Phpdoc.{line, concat, format_phpdoc, return_type, params_of}

abbrev pub comment_lines : List Bytes → Bytes
comment_lines docs = concat (map (λ comment. line (codes " *" ++ comment)) docs)

-- `impl ToStub for DocBlock`
unfoldable pub docs_stub : List Bytes → Bytes
docs_stub docs =
    if is_nil docs then [] else line (codes "/**") ++ (comment_lines docs ++ line (codes " */"))

pub data Visibility : Type 0 where
  private protected public : Visibility

unfoldable pub visibility_stub : Visibility → Bytes
visibility_stub private = codes "private"
visibility_stub protected = codes "protected"
visibility_stub public = codes "public"

pub record Property : Type 0 where
  pub name : Bytes
  pub docs : List Bytes
  pub ty : Option DataType
  pub vis : Visibility
  pub static_ : Bool
  pub nullable : Bool
  pub readonly : Bool
  pub default : Option Bytes

abbrev pub var_tag : Option DataType → Bool → Bytes
unfolding datatype_to_phpdoc
var_tag none nullable = []
var_tag (some ty) nullable =
    line (codes " *") ++ line (codes " * @var " ++ datatype_to_phpdoc ty nullable)

-- `!matches!(ty, DataType::Mixed | DataType::Null)`
abbrev pub takes_null_property : DataType → Bool
takes_null_property DataType.mixed = false
takes_null_property DataType.null = false
takes_null_property ty = true

abbrev pub property_type : Option DataType → Bool → Bytes
unfolding type_stub
property_type none nullable = []
property_type (some ty) nullable =
    (if nullable && takes_null_property ty then codes "?" else []) ++ (type_stub ty ++ codes " ")

abbrev pub initial : Option Bytes → Bytes
initial none = []
initial (some default) = codes " = " ++ default

-- `impl ToStub for Property`
unfoldable pub property_stub : Property → Bytes
unfolding var_tag property_type visibility_stub
property_stub p =
    (if is_nil p.docs
      then []
      else line (codes "/**")
        ++ (comment_lines p.docs ++ (var_tag p.ty p.nullable ++ line (codes " */"))))
    ++ (visibility_stub p.vis
        ++ (codes " "
            ++ ((if p.static_ then codes "static " else [])
                ++ ((if p.readonly then codes "readonly " else [])
                    ++ (property_type p.ty p.nullable
                        ++ (codes "$" ++ (p.name ++ (initial p.default ++ line (codes ";")))))))))

pub data MethodType : Type 0 where
  member static constructor : MethodType

pub record Method : Type 0 where
  pub name : Bytes
  pub docs : List Bytes
  pub ty : MethodType
  pub params : List Parameter
  pub retval : Option Retval
  pub visibility : Visibility
  pub is_abstract : Bool

-- Nothing of the return type of a constructor is printed.
abbrev pub shown_retval : MethodType → Option Retval → Option Retval
shown_retval constructor retval = none
shown_retval ty retval = retval

abbrev pub static_prefix : MethodType → Bytes
static_prefix static = codes "static "
static_prefix ty = []

-- `impl ToStub for Method`
unfoldable pub method_stub : Method → Bytes
unfolding visibility_stub
method_stub m =
    let (comment, type_overrides) = format_phpdoc m.docs m.params (shown_retval m.ty m.retval) in
    comment
    ++ (visibility_stub m.visibility
        ++ (codes " "
            ++ (static_prefix m.ty
                ++ (codes "function "
                    ++ (m.name
                        ++ (codes "("
                            ++ (params_of m.params type_overrides
                                ++ (codes ")"
                                    ++ (return_type (shown_retval m.ty m.retval)
                                        ++ (if m.is_abstract
                                            then line (codes ";")
                                            else line (codes " {}")))))))))))

pub record Constant : Type 0 where
  pub name : Bytes
  pub docs : List Bytes
  pub value : Option Bytes

abbrev pub or_null_text : Option Bytes → Bytes
or_null_text none = codes "null"
or_null_text (some value) = value

-- `impl ToStub for Constant`
unfoldable pub constant_stub : Constant → Bytes
unfolding docs_stub
constant_stub c =
    docs_stub c.docs
    ++ (codes "const " ++ (c.name ++ (codes " = " ++ (or_null_text c.value ++ line (codes ";")))))

-- `impl ToStub for EnumCase`
pub record EnumCase : Type 0 where
  pub name : Bytes
  pub docs : List Bytes
  pub value : Option Bytes

unfoldable pub case_stub : EnumCase → Bytes
unfolding docs_stub
case_stub c =
    docs_stub c.docs ++ (codes "  case " ++ (c.name ++ (initial c.value ++ line (codes ";"))))
