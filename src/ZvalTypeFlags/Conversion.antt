-- ===== src/ZvalTypeFlags/Conversion.antt =====
-- What `TryFrom<ZvalTypeFlags>` returns, where `contains` is the test that `bitflags` documents:
-- all bits of the second set are in the first.
use Prim.Native.Nat.{bit_and}
use ext_php_rs.Prelude.{ℕ, Bool, true, ◌≡◌, ◌↔◌}
use ext_php_rs.Prelude.Bits.{bit_and-zero}
use ext_php_rs.Error.{ok}
use ext_php_rs.DataType.{DataType}
use ext_php_rs.ZvalTypeFlags.{try_from}

-- `IS_UNDEF` has no bits, so every set of flags contains it: the conversion never reads a type
-- other than `Undef`, and never fails.
pub try_from-undef :
    (contains : ℕ → ℕ → Bool)
    → ((flags other : ℕ) → (contains flags other ≡ true) ↔ (bit_and flags other ≡ other))
    → (flags : ℕ) → try_from contains flags ≡ ok DataType.undef
unfolding try_from
try_from-undef contains law flags = rw ((law flags 0).1 (bit_and-zero flags))
