-- ===== src/DataType/Tag.antt =====
-- The numbers of docsrs_bindings.rs by which Zend tells types apart: `IS_UNDEF` to `IS_PTR`, and
-- `_IS_BOOL`. Some of them are shared.
use ext_php_rs.Prelude.{ℕ}

abbrev pub undef : ℕ
undef = 0

abbrev pub null : ℕ
null = 1

abbrev pub bool_false : ℕ
bool_false = 2

abbrev pub bool_true : ℕ
bool_true = 3

abbrev pub long : ℕ
long = 4

abbrev pub double : ℕ
double = 5

abbrev pub string : ℕ
string = 6

abbrev pub array : ℕ
array = 7

abbrev pub object : ℕ
object = 8

abbrev pub resource : ℕ
resource = 9

abbrev pub reference : ℕ
reference = 10

abbrev pub constant_ast : ℕ
constant_ast = 11

abbrev pub callable : ℕ
callable = 12

abbrev pub iterable : ℕ
iterable = 13

abbrev pub void : ℕ
void = 14

abbrev pub mixed : ℕ
mixed = 16

abbrev pub indirect : ℕ
indirect = 12

abbrev pub ptr : ℕ
ptr = 13

abbrev pub bool : ℕ
bool = 18
