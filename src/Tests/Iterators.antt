-- ===== src/Tests/Iterators.antt =====
-- The theorems on src/types/iterator.rs at concrete inputs.
use ext_php_rs.Prelude.{ℕ, Bool, true, false, not, none, some, List, [], ◌∷◌, ◌≡◌, refl, arith}
use ext_php_rs.Text.Str.{is_nil}
use ext_php_rs.ZendIterator.{ZendIterator, Funcs, iter, drain, next}
use ext_php_rs.ZendIterator.Drain.{Methods, Cursor, funcs_of, iter-drain}
use ext_php_rs.ZendIterator.Exceptions.{Keeping, NoItem, pending_stops}

-- A walk along a list: the whole of it, and what is left.
abbrev Walk : Type 0
Walk = List (ℕ × ℕ) × List (ℕ × ℕ)

abbrev tail : List (ℕ × ℕ) → List (ℕ × ℕ)
tail [] = []
tail (x ∷ xs) = xs

abbrev head : List (ℕ × ℕ) → ℕ × ℕ
head [] = (0, 0)
head (x ∷ xs) = x

abbrev walk : Methods Walk ℕ ℕ
walk = record {
  valid = λ s. (not (is_nil s.1), s);
  rewind = λ s. (s.0, s.0);
  move_forward = λ s. (s.0, tail s.1);
  get_current_data = λ s. ((head s.1).1, s);
  get_current_key = λ s. ((head s.1).0, s);
}

abbrev calm : Walk → Bool
calm s = false

abbrev Remains : Walk → List (ℕ × ℕ) → Type 0
Remains s xs = s.1 ≡ xs

walk_laws : Cursor calm walk Remains
walk_laws = record {
  quiet = λ s xs h. refl;
  valid_lem = λ s xs h. (rw h refl, h);
  forward_lem = λ s x xs h. rw h refl;
  data_lem = λ s x xs h. (rw h refl, h);
  key_lem = λ s x xs h. (rw h refl, h);
}

abbrev pairs : List (ℕ × ℕ)
pairs = (4, 40) ∷ (5, 50) ∷ []

iter-drain_example :
    (z : ZendIterator Walk) × (iter calm
        (λ n. n)
        (funcs_of walk)
        (record { index = 9; php = (pairs, []) })
      ≡ some z)
    × ((drain calm (λ n. n) (funcs_of walk) 3 z).items ≡ pairs)
    × ((drain calm (λ n. n) (funcs_of walk) 3 z).ended ≡ true)
iter-drain_example =
    iter-drain calm (λ n. n) walk Remains walk_laws 3 9 (pairs, []) pairs refl (omega arith)
      (omega arith)

-- An iterator whose rewinding raised an exception; the state is whether one is pending.
abbrev broken : Funcs Bool ℕ ℕ
broken = record {
  valid = some (λ s. (true, s));
  rewind = some (λ s. true);
  move_forward = none;
  get_current_data = some (λ s. (7, s));
  get_current_key = none;
}

broken_keeps : Keeping (λ s. s) broken
broken_keeps = record {
  valid_lem = λ s h. h;
  rewind_lem = λ s h. refl;
  forward_lem = tt;
  data_lem = λ s h. h;
  key_lem = tt;
}

abbrev pending : ZendIterator Bool
pending = record { index = 0; php = true }

pending_stops_example :
    (iter (λ s. s) (λ n. n) broken pending ≡ none)
    × NoItem (λ s. s) (λ n. n) broken broken_keeps (next (λ s. s) (λ n. n) broken pending).0
pending_stops_example = pending_stops (λ s. s) (λ n. n) broken broken_keeps pending refl
