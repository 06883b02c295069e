-- ===== src/Zval/Write/Balance.antt =====
-- The counts that a zval holds, over any sequence of its setters.
use ext_php_rs.Prelude.{
  ℕ, ◌+◌, ◌%◌, Bool, true, false, [], ◌∷◌, ◌++◌, List, ◌≡◌, ◌≢◌, refl, arith, Bool-cases, inl, inr,
  All, ne→==false,
}
use ext_php_rs.DataType.{of_u32, has}
use ext_php_rs.Zval.Write.{
  Cell, address, Slot, Call, inc_count, new, cleanup, change_type, set_zend_string,
  set_interned_string, set_long, set_double, set_bool, set_null, set_resource, set_object,
  set_hashtable, set_ptr, drop,
}
use ext_php_rs.Zval.Write.Counts.{
  Setter, Content, one, makes, total, total-append, tag, one_mortal, owns, gives_back, calls,
  calls_lem,
}

module _ {D : Type 0} (immortal : ℕ → Bool) where
  abbrev pub apply : Setter D → Slot D → Slot D × List Call
  unfolding set_zend_string set_interned_string set_long set_double set_bool set_null set_resource
      set_object set_hashtable
  apply (Setter.long n) z = set_long n z
  apply (Setter.double d) z = set_double d z
  apply (Setter.bool b) z = set_bool b z
  apply Setter.null z = set_null z
  apply (Setter.zend_string p) z = set_zend_string (immortal p) p z
  apply (Setter.interned_string p) z = set_interned_string p z
  apply (Setter.resource p) z = set_resource p z
  apply (Setter.object p) z = set_object p z
  apply (Setter.hashtable p) z = set_hashtable (immortal p) p z

  abbrev pub content : Setter D → Content
  content (Setter.long n) = Content.long_of
  content (Setter.double d) = Content.double_of
  content (Setter.bool b) = Content.bool_of b
  content Setter.null = Content.null_of
  content (Setter.zend_string p) = Content.string_of p
  content (Setter.interned_string p) = Content.string_of p
  content (Setter.resource p) = Content.resource_of p
  content (Setter.object p) = Content.object_of p
  content (Setter.hashtable p) = Content.array_of p

  abbrev pub Holds : Content → Cell D → Type 0
  Holds (Content.string_of p) v = (v ≡ address p) × (p ≢ 0)
  Holds (Content.array_of p) v = v ≡ address p
  Holds (Content.object_of p) v = v ≡ address p
  Holds (Content.resource_of p) v = v ≡ address p
  Holds _ v = Unit

  -- The type word and the cell of a slot are those of a content.
  abbrev pub IsValid : Slot D → Content → Type 0
  IsValid z c = (z.type_info ≡ tag immortal c) × Holds c z.value

  -- The counts that a setter takes over from its caller.
  abbrev pub taken_over : Setter D → ℕ → ℕ
  taken_over (Setter.zend_string q) p = one_mortal immortal q p
  taken_over (Setter.resource q) p = one q p
  taken_over (Setter.hashtable q) p = one_mortal immortal q p
  taken_over _ p = 0

  -- The caller's part: strings are not null, and an interned string is immortal.
  abbrev pub IsGiven : Setter D → Type 0
  IsGiven (Setter.zend_string p) = p ≢ 0
  IsGiven (Setter.interned_string p) = (p ≢ 0) × (immortal p ≡ true)
  IsGiven _ = Unit

  cleanup_lem :
      (z : Slot D) (c : Content)
      → IsValid z c
      → cleanup (of_u32 (z.type_info % 256)) z ≡ calls immortal c
  unfolding of_u32 has
  cleanup_lem z Content.null_of h = rw h.0 refl
  cleanup_lem z Content.long_of h = rw h.0 refl
  cleanup_lem z Content.double_of h = rw h.0 refl
  cleanup_lem z (Content.bool_of true) h = rw h.0 refl
  cleanup_lem z (Content.bool_of false) h = rw h.0 refl
  cleanup_lem z (Content.object_of p) h = rw (h.0, h.1) refl
  cleanup_lem z (Content.resource_of p) h = rw (h.0, h.1) refl
  cleanup_lem z (Content.array_of p) h = elim (Bool-cases (immortal p)) [
    | inl e ↦ rw (h.0, h.1, e) refl
    | inr e ↦ rw (h.0, h.1, e) refl
  ]
  cleanup_lem z (Content.string_of p) h =
      let (info, (v, not_null)) = h in
      elim (Bool-cases (immortal p)) [
        | inl e ↦ rw (info, v, e, ne→==false p 0 not_null) refl
        | inr e ↦ rw (info, v, e, ne→==false p 0 not_null) refl
      ]

  -- What `change_type` gives back is what the content owns, and it makes no counts.
  cleanup-owns :
      (z : Slot D) (c : Content) (p : ℕ)
      → IsValid z c
      → (total (gives_back immortal) (cleanup (of_u32 (z.type_info % 256)) z) p ≡ owns immortal c p)
        × (total makes (cleanup (of_u32 (z.type_info % 256)) z) p ≡ 0)
  cleanup-owns z c p h = rw (cleanup_lem z c h) (calls_lem immortal c p)

  apply-IsValid : (s : Setter D) (z : Slot D) → IsGiven s → IsValid (apply s z).0 (content s)
  unfolding set_zend_string set_interned_string set_long set_double set_bool set_null set_resource
      set_object set_hashtable change_type
  apply-IsValid (Setter.long n) z g = (refl, tt)
  apply-IsValid (Setter.double d) z g = (refl, tt)
  apply-IsValid (Setter.bool b) z g = (refl, tt)
  apply-IsValid Setter.null z g = (refl, tt)
  apply-IsValid (Setter.zend_string p) z g = (refl, (refl, g))
  apply-IsValid (Setter.interned_string p) z g = (rw g.1 refl, (refl, g.0))
  apply-IsValid (Setter.resource p) z g = (refl, refl)
  apply-IsValid (Setter.object p) z g = (refl, refl)
  apply-IsValid (Setter.hashtable p) z g = (refl, refl)

  -- One setter gives back what the slot owned; what the slot owns then was made or taken over.
  apply-owns :
      (s : Setter D) (z : Slot D) (c : Content) (p : ℕ)
      → IsGiven s
      → IsValid z c
      → (total (gives_back immortal) (apply s z).1 p ≡ owns immortal c p)
        × (total makes (apply s z).1 p + taken_over s p ≡ owns immortal (content s) p)
  unfolding set_zend_string set_interned_string set_long set_double set_bool set_null set_resource
      set_object set_hashtable change_type
  apply-owns (Setter.object q) z c p g h =
      let (back, made) = cleanup-owns z c p h in
      let old = cleanup (of_u32 (z.type_info % 256)) z in
      (
        omega (arith, back, total-append (gives_back immortal) old (inc_count q ∷ []) p),
        omega (arith, made, total-append makes old (inc_count q ∷ []) p),
      )
  apply-owns (Setter.interned_string q) z c p g h =
      let (back, made) = cleanup-owns z c p h in (back, rw g.1 (omega (arith, made)))
  apply-owns s z c p g h = let (back, made) = cleanup-owns z c p h in (back, omega (arith, made))

  -- The setters one after the other, and the drop of the zval.
  abbrev pub run : List (Setter D) → Slot D → List Call
  unfolding drop
  run [] z = (drop z).1
  run (s ∷ ss) z = (apply s z).1 ++ run ss (apply s z).0

  abbrev pub all_taken_over : List (Setter D) → ℕ → ℕ
  all_taken_over [] p = 0
  all_taken_over (s ∷ ss) p = taken_over s p + all_taken_over ss p

  run-owns :
      (ss : List (Setter D)) (z : Slot D) (c : Content) (p : ℕ)
      → All IsGiven ss
      → IsValid z c
      → total (gives_back immortal) (run ss z) p
        ≡ owns immortal c p + total makes (run ss z) p + all_taken_over ss p
  unfolding drop change_type
  run-owns [] z c p g h = let (back, made) = cleanup-owns z c p h in omega (arith, back, made)
  run-owns (s ∷ ss) z c p g h =
      let (z', ks) = apply s z in
      let (back, made) = apply-owns s z c p g.0 h in
      omega (
        arith,
        back,
        made,
        run-owns ss z' (content s) p g.1 (apply-IsValid s z g.0),
        total-append (gives_back immortal) ks (run ss z') p,
        total-append makes ks (run ss z') p,
      )

  -- Over any sequence of the nine setters on a new zval, followed by its drop, each count of every
  -- address that a setter took over from its caller or made itself is given back exactly once, if no
  -- string is null and every interned string is immortal.
  pub run_balanced :
      (ss : List (Setter D)) (p : ℕ)
      → All IsGiven ss
      → total (gives_back immortal) (run ss new) p
        ≡ total makes (run ss new) p + all_taken_over ss p
  run_balanced ss p g = omega (arith, run-owns ss new Content.null_of p g (refl, tt))

  -- `set_ptr` calls nothing, and the drop that follows it calls nothing: whatever counts the slot owned
  -- before, none is given back, while each of the nine other setters gives them all back at once.
  pub set_ptr_leaks :
      (z : Slot D) (c : Content) (q p : ℕ)
      → IsValid z c
      → (total (gives_back immortal) ((set_ptr q z).1 ++ (drop (set_ptr q z).0).1) p ≡ 0)
        × ((s : Setter D)
            → IsGiven s
            → total (gives_back immortal) (apply s z).1 p ≡ owns immortal c p)
  unfolding set_ptr drop change_type of_u32 has
  set_ptr_leaks z c q p h = (refl, λ s g. (apply-owns s z c p g h).0)
