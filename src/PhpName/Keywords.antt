-- ===== src/PhpName/Keywords.antt =====
-- crates/macros/src/parsing.rs: the names that PHP keeps for itself, and the magic methods.
use ext_php_rs.Prelude.{[], ◌∷◌, List, Bytes, codes}

-- `PHP_RESERVED_KEYWORDS`
unfoldable pub php_reserved_keywords : List Bytes
php_reserved_keywords =
    codes "__halt_compiler"
    ∷ codes "abstract"
    ∷ codes "and"
    ∷ codes "array"
    ∷ codes "as"
    ∷ codes "break"
    ∷ codes "callable"
    ∷ codes "case"
    ∷ codes "catch"
    ∷ codes "class"
    ∷ codes "clone"
    ∷ codes "const"
    ∷ codes "continue"
    ∷ codes "declare"
    ∷ codes "default"
    ∷ codes "die"
    ∷ codes "do"
    ∷ codes "echo"
    ∷ codes "else"
    ∷ codes "elseif"
    ∷ codes "empty"
    ∷ codes "enum"
    ∷ codes "enddeclare"
    ∷ codes "endfor"
    ∷ codes "endforeach"
    ∷ codes "endif"
    ∷ codes "endswitch"
    ∷ codes "endwhile"
    ∷ codes "eval"
    ∷ codes "exit"
    ∷ codes "extends"
    ∷ codes "final"
    ∷ codes "finally"
    ∷ codes "fn"
    ∷ codes "for"
    ∷ codes "foreach"
    ∷ codes "function"
    ∷ codes "global"
    ∷ codes "goto"
    ∷ codes "if"
    ∷ codes "implements"
    ∷ codes "include"
    ∷ codes "include_once"
    ∷ codes "instanceof"
    ∷ codes "insteadof"
    ∷ codes "interface"
    ∷ codes "isset"
    ∷ codes "list"
    ∷ codes "match"
    ∷ codes "namespace"
    ∷ codes "new"
    ∷ codes "or"
    ∷ codes "print"
    ∷ codes "private"
    ∷ codes "protected"
    ∷ codes "public"
    ∷ codes "readonly"
    ∷ codes "require"
    ∷ codes "require_once"
    ∷ codes "return"
    ∷ codes "static"
    ∷ codes "switch"
    ∷ codes "throw"
    ∷ codes "trait"
    ∷ codes "try"
    ∷ codes "unset"
    ∷ codes "use"
    ∷ codes "var"
    ∷ codes "while"
    ∷ codes "xor"
    ∷ codes "yield"
    ∷ codes "yield from"
    ∷ codes "__CLASS__"
    ∷ codes "__DIR__"
    ∷ codes "__FILE__"
    ∷ codes "__FUNCTION__"
    ∷ codes "__LINE__"
    ∷ codes "__METHOD__"
    ∷ codes "__NAMESPACE__"
    ∷ codes "__TRAIT__"
    ∷ codes "self"
    ∷ codes "parent"
    ∷ []

-- `PHP_METHOD_FORBIDDEN_KEYWORDS`
unfoldable pub php_method_forbidden_keywords : List Bytes
php_method_forbidden_keywords = codes "__halt_compiler" ∷ []

-- `PHP_FUNCTION_ALLOWED_KEYWORDS`
unfoldable pub php_function_allowed_keywords : List Bytes
php_function_allowed_keywords = codes "readonly" ∷ []

-- `PHP_TYPE_KEYWORDS`
unfoldable pub php_type_keywords : List Bytes
php_type_keywords =
    codes "bool"
    ∷ codes "false"
    ∷ codes "float"
    ∷ codes "int"
    ∷ codes "iterable"
    ∷ codes "mixed"
    ∷ codes "never"
    ∷ codes "null"
    ∷ codes "object"
    ∷ codes "string"
    ∷ codes "true"
    ∷ codes "void"
    ∷ []

-- `MAGIC_METHOD`
unfoldable pub magic_method : List Bytes
magic_method =
    codes "__construct"
    ∷ codes "__destruct"
    ∷ codes "__call"
    ∷ codes "__call_static"
    ∷ codes "__get"
    ∷ codes "__set"
    ∷ codes "__isset"
    ∷ codes "__unset"
    ∷ codes "__sleep"
    ∷ codes "__wakeup"
    ∷ codes "__serialize"
    ∷ codes "__unserialize"
    ∷ codes "__to_string"
    ∷ codes "__invoke"
    ∷ codes "__set_state"
    ∷ codes "__clone"
    ∷ codes "__debug_info"
    ∷ []
