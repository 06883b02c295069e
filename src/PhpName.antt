-- ===== src/PhpName.antt =====
-- crates/macros/src/parsing.rs: the PHP names of Rust items. `str::to_lowercase` (Unicode tables) and
-- `convert_case` are not code of the repository and are parameters.
pub mod Keywords
pub mod Rename
pub mod Validate
use ext_php_rs.Prelude.{
  Bool, true, false, not, ◌&&◌, ◌||◌, Option, [], ◌∷◌, List, Bytes, codes, text_eq, if◌then◌else◌,
  ℕ, ◌==◌,
}
use ext_php_rs.PhpName.Keywords.{
  php_reserved_keywords, php_method_forbidden_keywords, php_function_allowed_keywords,
  php_type_keywords, magic_method,
}

-- `str::strip_prefix`
abbrev pub strip_prefix : Bytes → Bytes → Option Bytes
strip_prefix [] s = Option.some s
strip_prefix (c ∷ p) [] = Option.none
strip_prefix (c ∷ p) (d ∷ s) = if c == d then strip_prefix p s else Option.none

-- `Option::unwrap_or`
abbrev pub or_name : Option Bytes → Bytes → Bytes
or_name Option.none d = d
or_name (Option.some s) d = s

unfoldable pub ident_to_php_name : Bytes → Bytes
ident_to_php_name ident = or_name (strip_prefix (codes "r#") ident) ident

pub data PhpNameContext : Type 0 where
  class interface enum enum_case function method constant property : PhpNameContext

unfoldable pub description : PhpNameContext → Bytes
description class = codes "class"
description interface = codes "interface"
description enum = codes "enum"
description enum_case = codes "enum case"
description function = codes "function"
description method = codes "method"
description constant = codes "constant"
description property = codes "property"

-- `keywords.iter().any(|&kw| kw.to_lowercase() == lower)`
abbrev pub any_keyword : (Bytes → Bytes) → List Bytes → Bytes → Bool
any_keyword to_lowercase [] lower = false
any_keyword to_lowercase (kw ∷ kws) lower =
    text_eq (to_lowercase kw) lower || any_keyword to_lowercase kws lower

unfoldable pub is_php_type_keyword : (Bytes → Bytes) → Bytes → Bool
is_php_type_keyword to_lowercase name =
    any_keyword to_lowercase php_type_keywords (to_lowercase name)

unfoldable pub is_php_reserved_keyword : (Bytes → Bytes) → Bytes → Bool
is_php_reserved_keyword to_lowercase name =
    any_keyword to_lowercase php_reserved_keywords (to_lowercase name)

unfoldable pub is_php_method_forbidden_keyword : (Bytes → Bytes) → Bytes → Bool
is_php_method_forbidden_keyword to_lowercase name =
    any_keyword to_lowercase php_method_forbidden_keywords (to_lowercase name)

unfoldable pub is_php_function_allowed_keyword : (Bytes → Bytes) → Bytes → Bool
is_php_function_allowed_keyword to_lowercase name =
    any_keyword to_lowercase php_function_allowed_keywords (to_lowercase name)

-- The `match` of `validate_php_name`, on what the four tests say of the name.
abbrev pub is_forbidden : PhpNameContext → Bool → Bool → Bool → Bool → Bool
is_forbidden class reserved type forbidden allowed = reserved || type
is_forbidden interface reserved type forbidden allowed = reserved || type
is_forbidden enum reserved type forbidden allowed = reserved || type
is_forbidden enum_case reserved type forbidden allowed = reserved || type
is_forbidden function reserved type forbidden allowed = reserved && not allowed
is_forbidden method reserved type forbidden allowed = forbidden
is_forbidden constant reserved type forbidden allowed = forbidden
is_forbidden property reserved type forbidden allowed = forbidden

-- What `validate_php_name` answers; an error carries the name and the description that its message
-- is formatted from.
pub data Verdict : Type 0 where
  fine : Verdict
  cannot_use : Bytes → Bytes → Verdict

unfoldable pub validate_php_name : (Bytes → Bytes) → Bytes → PhpNameContext → Verdict
unfolding description is_php_type_keyword is_php_reserved_keyword is_php_method_forbidden_keyword
    is_php_function_allowed_keyword
validate_php_name to_lowercase name context =
    if is_forbidden context (is_php_reserved_keyword to_lowercase name)
      (is_php_type_keyword to_lowercase name) (is_php_method_forbidden_keyword to_lowercase name)
      (is_php_function_allowed_keyword to_lowercase name)
    then cannot_use name (description context)
    else fine

pub data RenameRule : Type 0 where
  none camel snake pascal screaming_snake : RenameRule

-- `convert_case::Case`, the cases that the source converts to.
pub data Case : Type 0 where
  camel pascal snake constant : Case

-- `RenameRule::rename`
unfoldable pub rename : (Bytes → Case → Bytes) → RenameRule → Bytes → Bytes
rename to_case RenameRule.none value = value
rename to_case RenameRule.camel value = to_case value Case.camel
rename to_case RenameRule.pascal value = to_case value Case.pascal
rename to_case RenameRule.snake value = to_case value Case.snake
rename to_case RenameRule.screaming_snake value = to_case value Case.constant

-- `[&str]::contains`
abbrev pub contains : List Bytes → Bytes → Bool
contains [] s = false
contains (k ∷ ks) s = text_eq k s || contains ks s

-- The inner `match` of `rename_method`.
abbrev pub magic_name : Bytes → Bytes
magic_name original =
    if text_eq original (codes "__to_string")
    then codes "__toString"
    else if text_eq original (codes "__debug_info")
    then codes "__debugInfo"
    else if text_eq original (codes "__call_static")
    then codes "__callStatic"
    else original

abbrev pub rename_unless_magic : (Bytes → Case → Bytes) → RenameRule → Bytes → Bytes
unfolding rename
rename_unless_magic to_case rule original =
    if contains magic_method original then magic_name original else rename to_case rule original

-- `MethodRename::rename_method`
unfoldable pub rename_method : (Bytes → Case → Bytes) → RenameRule → Bytes → Bytes
unfolding rename_unless_magic
rename_method to_case RenameRule.none original = original
rename_method to_case RenameRule.camel original =
    rename_unless_magic to_case RenameRule.camel original
rename_method to_case RenameRule.snake original =
    rename_unless_magic to_case RenameRule.snake original
rename_method to_case RenameRule.pascal original =
    rename_unless_magic to_case RenameRule.pascal original
rename_method to_case RenameRule.screaming_snake original =
    rename_unless_magic to_case RenameRule.screaming_snake original

pub record PhpRename : Type 0 where
  pub name : Option Bytes
  pub change_case : Option RenameRule

-- `self.change_case.unwrap_or(default)`
abbrev pub or_rule : Option RenameRule → RenameRule → RenameRule
or_rule Option.none default = default
or_rule (Option.some rule) default = rule

-- `PhpRename::rename`
unfoldable pub php_rename : (Bytes → Case → Bytes) → PhpRename → Bytes → RenameRule → Bytes
unfolding rename
php_rename to_case self name default =
    or_name self.name (rename to_case (or_rule self.change_case default) name)

-- `PhpRename::rename_method`
unfoldable pub php_rename_method : (Bytes → Case → Bytes) → PhpRename → Bytes → RenameRule → Bytes
unfolding rename_method
php_rename_method to_case self name default =
    or_name self.name (rename_method to_case (or_rule self.change_case default) name)
