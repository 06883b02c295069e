-- ===== src/Tests/Types.antt =====
-- The theorems on src/flags.rs and src/zend/_type.rs at concrete inputs.
use Prim.Native.Nat.{bit_and}
use ext_php_rs.Prelude.{ℕ, ◌==◌, Bool, true, false}
use ext_php_rs.DataType.{DataType}
use ext_php_rs.ZendType.{type_init_code}
use ext_php_rs.ZendType.Mask.{MaskFields, type_init_code_fields}

type_init_code_fields_example :
    MaskFields (type_init_code DataType.long true false true) DataType.long true false true
type_init_code_fields_example = type_init_code_fields DataType.long true false true

-- `bitflags`: all bits of the second are in the first.
abbrev has_all : ℕ → ℕ → Bool
has_all flags other = bit_and flags other == other
