-- ===== src/Zval/Write/Counts.antt =====
-- The setters of src/types/zval.rs as data, what a zval holds, and the counts of Zend that stand for it.
use ext_php_rs.Prelude.{
  ℕ, ◌+◌, ◌%◌, ◌/◌, Bool, [], ◌∷◌, ◌++◌, List, ◌==◌, if◌then◌else◌, ◌≡◌, refl, arith, Bool-cases,
  inl, inr,
}
use ext_php_rs.Prelude.Int.{ℤ}
use ext_php_rs.DataType.Tag
use ext_php_rs.ZvalTypeFlags.{interned_string_ex, string_ex, array_ex, object_ex, resource_ex}
use ext_php_rs.Zval.Write.{Call, string_release, ptr_dtor, inc_count}

-- The setters, with their arguments.
pub data Setter (D : Type 0) : Type 0 where
  long : ℤ → Setter D
  double : D → Setter D
  bool : Bool → Setter D
  null : Setter D
  zend_string interned_string resource object hashtable : ℕ → Setter D

-- What a slot holds.
pub data Content : Type 0 where
  null_of long_of double_of : Content
  bool_of : Bool → Content
  string_of array_of object_of resource_of : ℕ → Content

abbrev pub one : ℕ → ℕ → ℕ
one q p = if q == p then 1 else 0

abbrev pub makes : Call → ℕ → ℕ
makes (inc_count q) p = one q p
makes _ p = 0

abbrev pub total : (Call → ℕ → ℕ) → List Call → ℕ → ℕ
total f [] p = 0
total f (k ∷ ks) p = f k p + total f ks p

pub total-append :
    (f : Call → ℕ → ℕ) (ks ms : List Call) (p : ℕ)
    → total f (ks ++ ms) p ≡ total f ks p + total f ms p
total-append f [] ms p = omega arith
total-append f (k ∷ ks) ms p = omega (arith, total-append f ks ms p)

module _ (immortal : ℕ → Bool) where
  abbrev pub tag : Content → ℕ
  tag Content.null_of = Tag.null
  tag Content.long_of = Tag.long
  tag Content.double_of = Tag.double
  tag (Content.bool_of b) = if b then Tag.bool_true else Tag.bool_false
  tag (Content.string_of p) = if immortal p then interned_string_ex else string_ex
  tag (Content.array_of p) = if immortal p then Tag.array else array_ex
  tag (Content.object_of p) = object_ex
  tag (Content.resource_of p) = resource_ex

  abbrev pub one_mortal : ℕ → ℕ → ℕ
  one_mortal q p = if immortal q then 0 else one q p

  -- The counts of an address that a content stands for.
  abbrev pub owns : Content → ℕ → ℕ
  owns (Content.string_of q) p = one_mortal q p
  owns (Content.array_of q) p = one_mortal q p
  owns (Content.object_of q) p = one q p
  owns (Content.resource_of q) p = one q p
  owns _ p = 0

  -- Zend gives a count back unless the string is immortal or the type word has no count.
  abbrev pub gives_back : Call → ℕ → ℕ
  gives_back (string_release q) p = one_mortal q p
  gives_back (ptr_dtor info q) p = if info / 256 % 2 == 1 then one q p else 0
  gives_back (inc_count q) p = 0

  -- The calls of `change_type`, by the content.
  abbrev pub calls : Content → List Call
  calls (Content.string_of p) = string_release p ∷ []
  calls (Content.array_of p) = ptr_dtor (tag (Content.array_of p)) p ∷ []
  calls (Content.object_of p) = ptr_dtor object_ex p ∷ []
  calls (Content.resource_of p) = ptr_dtor resource_ex p ∷ []
  calls _ = []

  pub calls_lem :
      (c : Content) (p : ℕ)
      → (total gives_back (calls c) p ≡ owns c p) × (total makes (calls c) p ≡ 0)
  calls_lem Content.null_of p = (refl, refl)
  calls_lem Content.long_of p = (refl, refl)
  calls_lem Content.double_of p = (refl, refl)
  calls_lem (Content.bool_of b) p = (refl, refl)
  calls_lem (Content.string_of q) p = ground arith
  calls_lem (Content.array_of q) p = elim (Bool-cases (immortal q)) [
    | inl e ↦ rw e (omega arith, omega arith)
    | inr e ↦ rw e (omega arith, omega arith)
  ]
  calls_lem (Content.object_of q) p = (omega arith, omega arith)
  calls_lem (Content.resource_of q) p = (omega arith, omega arith)
