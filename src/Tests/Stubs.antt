-- ===== src/Tests/Stubs.antt =====
-- The theorems on src/describe/stub.rs at concrete inputs, and stubs as they are printed.
use ext_php_rs.Prelude.{ℕ, Bool, true, false, none, some, List, [], ◌∷◌, Bytes, codes, ◌≡◌, refl}
use ext_php_rs.DataType.{DataType}
use ext_php_rs.Text.Str.{retrieve}
use ext_php_rs.Stub.Docs.{no_docs, parse_rustdoc}
use ext_php_rs.Stub.Docs.Sections.{outline, read_all, parse_rustdoc-outline}
use ext_php_rs.Stub.Types.{type_stub, signature_type, param_to_stub}
use mathlib.Core.List.{Perm}
use ext_php_rs.Stub.Module.{Module, buckets}
use ext_php_rs.Stub.Module.Order.{InOrder}
use ext_php_rs.Stub.Module.Buckets.{bucket_of, declared_in, NoTwice, bucket_of-buckets}

abbrev docs : List Bytes
docs =
    codes " Adds."
    ∷ codes " # Arguments"
    ∷ codes " * `a` - the first"
    ∷ codes " # Returns"
    ∷ codes " the sum"
    ∷ []

parse_rustdoc-outline_example :
    parse_rustdoc docs ≡ read_all (outline docs).1 (record no_docs { summary = (outline docs).0 })
parse_rustdoc-outline_example = parse_rustdoc-outline docs

abbrev small_module : Module
small_module = record {
  name = codes "ext";
  functions =
      record { name = codes "ns\\f"; docs = []; ret = none; params = [] }
      ∷ record { name = codes "g"; docs = []; ret = none; params = [] }
      ∷ record { name = codes "ns\\e"; docs = []; ret = none; params = [] }
      ∷ [];
  classes = [];
  enums = [];
  constants = record { name = codes "C"; docs = []; value = none } ∷ [];
}

abbrev no_interface : ℕ → Bool
no_interface flags = false

bucket_of-buckets_example :
    Perm
      (bucket_of (some (codes "ns")) (buckets (codes "\n") no_interface small_module))
      (declared_in (codes "\n") no_interface small_module (some (codes "ns")))
    × InOrder (bucket_of (some (codes "ns")) (buckets (codes "\n") no_interface small_module))
    × NoTwice (buckets (codes "\n") no_interface small_module)
bucket_of-buckets_example =
    bucket_of-buckets (codes "\n") no_interface small_module (some (codes "ns"))

-- A nullable parameter without a default, as the signature has it.
nullable_parameter :
    param_to_stub
      (record {
        name = codes "x";
        ty = some DataType.long;
        nullable = true;
        variadic = false;
        default = none;
      })
      []
    ≡ codes "?int $x = null"
unfolding param_to_stub signature_type type_stub retrieve
nullable_parameter = refl
