-- ===== src/Tests/Counts.antt =====
-- The theorems on the setters of src/types/zval.rs at concrete inputs. The string at 100 is interned.
use ext_php_rs.Prelude.{ℕ, ◌+◌, Bool, ◌==◌, [], ◌∷◌, List, Bytes, ◌≡◌, refl, arith}
use ext_php_rs.Prelude.Int.{pos}
use ext_php_rs.ZvalTypeFlags.{string_ex}
use Prim.Native.Nat.{bit_and}
use ext_php_rs.Zval.Write.{Slot, new, address}
use ext_php_rs.Zval.Write.Counts.{Setter, total, gives_back, makes}
use ext_php_rs.Zval.Write.Balance.{run, all_taken_over, run_balanced}

abbrev immortal : ℕ → Bool
immortal p = p == 100

abbrev setters : List (Setter Bytes)
setters =
    Setter.zend_string 7
    ∷ Setter.object 9
    ∷ Setter.long (pos 3)
    ∷ Setter.interned_string 100
    ∷ Setter.hashtable 7
    ∷ []

run_balanced_example :
    total (gives_back immortal) (run immortal setters new) 7
    ≡ total makes (run immortal setters new) 7 + all_taken_over immortal setters 7
run_balanced_example =
    run_balanced immortal setters 7 (omega arith, (tt, (tt, ((omega arith, refl), (tt, tt)))))

abbrev text_slot : Slot Bytes
text_slot = record { type_info = string_ex; value = address 7 }

-- `bitflags`: all bits of the second are in the first.
abbrev contains : ℕ → ℕ → Bool
contains flags other = bit_and flags other == other
