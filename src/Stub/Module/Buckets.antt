-- ===== src/Stub/Module/Buckets.antt =====
-- What is printed under each namespace.
use ext_php_rs.Prelude.{
  ℕ, Bool, true, false, Option, none, some, List, [], ◌∷◌, ◌++◌, map, Bytes, text_eq_iff,
  if◌then◌else◌, ◌≡◌, ◌↔◌, refl, sym, ap, ◌∙◌, arith, append_assoc, append-nil, All, Bool-cases,
  inl, inr,
}
use mathlib.Core.Path.{subst}
use mathlib.Core.List.{Perm}
use ext_php_rs.Stub.Phpdoc.{function_stub}
use ext_php_rs.Stub.Members.{Constant, constant_stub}
use ext_php_rs.Stub.Module.Order.{InOrder, sorted-Perm, sorted-InOrder}
use ext_php_rs.Stub.Types.{split_namespace}
use ext_php_rs.Stub.Sorting.{sort_by, insert_sorted}
use ext_php_rs.Stub.Module.{
  Keyed, Buckets, same_namespace, insert_entry, group, sorted, Module, buckets, entities,
  namespace_greater, class_stub, enum_stub, Function, Class, Enum,
}

same_namespace_iff : (m n : Option Bytes) → (same_namespace m n ≡ true) ↔ (m ≡ n)
same_namespace_iff none none = ((λ _. refl), λ _. refl)
same_namespace_iff none (some n) = ground arith
same_namespace_iff (some m) none = ground arith
same_namespace_iff (some m) (some n) = ground (arith, text_eq_iff m n)

-- The entries of a namespace, none where it has no bucket.
unfoldable pub bucket_of : Option Bytes → Buckets → List Keyed
bucket_of ns [] = []
bucket_of ns ((n, bucket) ∷ entries) =
    let rest = bucket_of ns entries in if same_namespace n ns then bucket else rest

-- The entities of a namespace, by their names in it.
unfoldable pub belonging : Option Bytes → List Keyed → List Keyed
belonging ns [] = []
belonging ns ((qualified_name, stub) ∷ es) =
    let (n, name) = split_namespace qualified_name in
    let rest = belonging ns es in if same_namespace n ns then (name, stub) ∷ rest else rest

pushed :
    (b : Bool) (e : Keyed) (bucket rest : List Keyed)
    → (if b then bucket ++ e ∷ [] else rest)
      ≡ (if b then bucket else rest) ++ (if b then e ∷ [] else [])
pushed true e bucket rest = refl
pushed false e bucket rest = sym (append-nil rest)

other :
    (n m ns : Option Bytes)
    → same_namespace n m ≡ false
    → same_namespace n ns ≡ true
    → same_namespace m ns ≡ false
other n m ns h k =
    ground (arith, same_namespace_iff n m, same_namespace_iff n ns, same_namespace_iff m ns)

bucket_of-insert_entry :
    (ns m : Option Bytes) (e : Keyed) (entries : Buckets)
    → bucket_of ns (insert_entry m e entries)
      ≡ bucket_of ns entries ++ (if same_namespace m ns then e ∷ [] else [])
unfolding bucket_of insert_entry
bucket_of-insert_entry ns m e [] = refl
bucket_of-insert_entry ns m e ((n, bucket) ∷ entries) = elim (Bool-cases (same_namespace n m)) [
  | inl h ↦
      let same = ap (λ k. same_namespace k ns) ((same_namespace_iff n m).0 h) in
      rw h (
        pushed (same_namespace n ns) e bucket (bucket_of ns entries)
        ∙ ap
            (λ b.
              (if same_namespace n ns then bucket else bucket_of ns entries)
              ++ (if b then e ∷ [] else []))
            same)
  | inr h ↦ rw h (elim (Bool-cases (same_namespace n ns)) [
    | inl k ↦ rw (k, other n m ns h k) (sym (append-nil bucket))
    | inr k ↦ rw k (bucket_of-insert_entry ns m e entries)
  ])
]

bucket_of-group_onto :
    (ns : Option Bytes) (es : List Keyed) (entries : Buckets)
    → bucket_of ns (group es entries) ≡ bucket_of ns entries ++ belonging ns es
unfolding group belonging
bucket_of-group_onto ns [] entries = sym (append-nil (bucket_of ns entries))
bucket_of-group_onto ns ((q, stub) ∷ es) entries =
    let (m, name) = split_namespace q in
    bucket_of-group_onto ns es (insert_entry m (name, stub) entries)
    ∙ ap (λ b. b ++ belonging ns es) (bucket_of-insert_entry ns m (name, stub) entries)
    ∙ append_assoc (bucket_of ns entries) _ (belonging ns es)
    ∙ ap (λ b. bucket_of ns entries ++ b)
        (front (same_namespace m ns) (name, stub) (belonging ns es))
  where
    front :
        (b : Bool) (e : Keyed) (es : List Keyed)
        → (if b then e ∷ [] else []) ++ es ≡ (if b then e ∷ es else es)
    front true e es = refl
    front false e es = refl

-- A namespace has one bucket.
unfoldable pub Apart : Option Bytes → Buckets → Type 0
Apart n entries = All (λ b. same_namespace n b.0 ≡ false) entries

unfoldable pub NoTwice : Buckets → Type 0
unfolding Apart
NoTwice [] = Unit
NoTwice ((n, bucket) ∷ entries) = Apart n entries × NoTwice entries

insert_entry-Apart :
    (n m : Option Bytes) (e : Keyed) (entries : Buckets)
    → same_namespace n m ≡ false
    → Apart n entries
    → Apart n (insert_entry m e entries)
unfolding insert_entry Apart
insert_entry-Apart n m e [] h a = (h, tt)
insert_entry-Apart n m e ((k, bucket) ∷ entries) h a = elim (Bool-cases (same_namespace k m)) [
  | inl s ↦ rw s (a.0, a.1)
  | inr s ↦ rw s (a.0, insert_entry-Apart n m e entries h a.1)
]

insert_entry-NoTwice :
    (m : Option Bytes) (e : Keyed) (entries : Buckets)
    → NoTwice entries
    → NoTwice (insert_entry m e entries)
unfolding insert_entry NoTwice Apart
insert_entry-NoTwice m e [] a = (tt, tt)
insert_entry-NoTwice m e ((k, bucket) ∷ entries) a = elim (Bool-cases (same_namespace k m)) [
  | inl s ↦ rw s a
  | inr s ↦ rw s (insert_entry-Apart k m e entries s a.0, insert_entry-NoTwice m e entries a.1)
]

group-NoTwice : (es : List Keyed) (entries : Buckets) → NoTwice entries → NoTwice (group es entries)
unfolding group
group-NoTwice [] entries a = a
group-NoTwice ((q, stub) ∷ es) entries a =
    let (m, name) = split_namespace q in
    group-NoTwice es (insert_entry m (name, stub) entries)
      (insert_entry-NoTwice m (name, stub) entries a)

-- The buckets with their entries in order.
abbrev in_order : Option Bytes × List Keyed → Option Bytes × List Keyed
in_order b = (b.0, sorted b.1)

in_order-Apart :
    (n : Option Bytes) (entries : Buckets) → Apart n entries → Apart n (map in_order entries)
unfolding Apart
in_order-Apart n [] a = tt
in_order-Apart n (b ∷ entries) a = (a.0, in_order-Apart n entries a.1)

in_order-NoTwice : (entries : Buckets) → NoTwice entries → NoTwice (map in_order entries)
unfolding NoTwice
in_order-NoTwice [] a = tt
in_order-NoTwice ((n, b) ∷ entries) a = (in_order-Apart n entries a.0, in_order-NoTwice entries a.1)

bucket_of-in_order :
    (ns : Option Bytes) (entries : Buckets)
    → bucket_of ns (map in_order entries) ≡ sorted (bucket_of ns entries)
unfolding bucket_of sorted sort_by
bucket_of-in_order ns [] = refl
bucket_of-in_order ns ((n, b) ∷ entries) = elim (Bool-cases (same_namespace n ns)) [
  | inl s ↦ rw s refl
  | inr s ↦ rw s (bucket_of-in_order ns entries)
]

module _ (gt : Option Bytes × List Keyed → Option Bytes × List Keyed → Bool) where
  insert_sorted-Apart :
      (n : Option Bytes) (x : Option Bytes × List Keyed) (ys : Buckets)
      → same_namespace n x.0 ≡ false
      → Apart n ys
      → Apart n (insert_sorted gt x ys)
  unfolding insert_sorted Apart
  insert_sorted-Apart n x [] h a = (h, tt)
  insert_sorted-Apart n x (y ∷ ys) h a = elim (Bool-cases (gt x y)) [
    | inl g ↦ rw g (a.0, insert_sorted-Apart n x ys h a.1)
    | inr g ↦ rw g (h, a)
  ]

  sort_by-Apart : (n : Option Bytes) (bs : Buckets) → Apart n bs → Apart n (sort_by gt bs)
  unfolding sort_by Apart
  sort_by-Apart n [] a = tt
  sort_by-Apart n (b ∷ bs) a = insert_sorted-Apart n b (sort_by gt bs) a.0 (sort_by-Apart n bs a.1)

  bucket_of-insert_sorted :
      (ns n : Option Bytes) (b : List Keyed) (ys : Buckets)
      → Apart n ys
      → bucket_of ns (insert_sorted gt (n, b) ys) ≡ bucket_of ns ((n, b) ∷ ys)
  unfolding bucket_of insert_sorted Apart
  bucket_of-insert_sorted ns n b [] a = refl
  bucket_of-insert_sorted ns n b ((k, d) ∷ ys) a = elim (Bool-cases (gt (n, b) (k, d))) [
    | inl g ↦
        rw (g, bucket_of-insert_sorted ns n b ys a.1)
          (elim (Bool-cases (same_namespace n ns)) [
            | inl s ↦ rw (s, other n k ns a.0 s) refl
            | inr s ↦ rw s refl
          ])
    | inr g ↦ rw g refl
  ]

  bucket_of-sort_by :
      (ns : Option Bytes) (bs : Buckets)
      → NoTwice bs
      → bucket_of ns (sort_by gt bs) ≡ bucket_of ns bs
  unfolding bucket_of sort_by NoTwice
  bucket_of-sort_by ns [] a = refl
  bucket_of-sort_by ns ((n, b) ∷ bs) a =
      bucket_of-insert_sorted ns n b (sort_by gt bs) (sort_by-Apart n bs a.0)
      ∙ ap (λ r. if same_namespace n ns then b else r) (bucket_of-sort_by ns bs a.1)

same_namespace_flip : (m n : Option Bytes) → same_namespace m n ≡ false → same_namespace n m ≡ false
same_namespace_flip m n h = elim (Bool-cases (same_namespace n m)) [
  | inl e ↦ let back = (same_namespace_iff m n).1 (sym ((same_namespace_iff n m).0 e)) in cc
  | inr e ↦ e
]

insert_sorted-NoTwice :
    (gt : Option Bytes × List Keyed → Option Bytes × List Keyed → Bool)
    (x : Option Bytes × List Keyed) (ys : Buckets)
    → Apart x.0 ys
    → NoTwice ys
    → NoTwice (insert_sorted gt x ys)
unfolding insert_sorted NoTwice Apart
insert_sorted-NoTwice gt x [] a h = (tt, tt)
insert_sorted-NoTwice gt x (y ∷ ys) a h = elim (Bool-cases (gt x y)) [
  | inl g ↦ rw g (
    insert_sorted-Apart gt y.0 x ys (same_namespace_flip x.0 y.0 a.0) h.0,
    insert_sorted-NoTwice gt x ys a.1 h.1,
  )
  | inr g ↦ rw g (a, h)
]

sort_by-NoTwice :
    (gt : Option Bytes × List Keyed → Option Bytes × List Keyed → Bool) (bs : Buckets)
    → NoTwice bs
    → NoTwice (sort_by gt bs)
unfolding sort_by NoTwice
sort_by-NoTwice gt [] h = tt
sort_by-NoTwice gt (b ∷ bs) h =
    insert_sorted-NoTwice gt b (sort_by gt bs) (sort_by-Apart gt b.0 bs h.0)
      (sort_by-NoTwice gt bs h.1)

-- The entities of one kind in a namespace, by their names in it.
abbrev pub of_kind : {A : Type 0} → Option Bytes → (A → Bytes) → (A → Bytes) → List A → List Keyed
of_kind ns name stub [] = []
of_kind ns name stub (x ∷ xs) =
    let (n, own) = split_namespace (name x) in
    if same_namespace n ns then (own, stub x) ∷ of_kind ns name stub xs else of_kind ns name stub xs

-- Everything in a namespace: constants, functions, classes and enums.
abbrev pub declared_in : Bytes → (ℕ → Bool) → Module → Option Bytes → List Keyed
declared_in new_line is_interface m ns =
    of_kind ns (λ c. c.name) constant_stub m.constants
    ++ (of_kind ns (λ f. f.name) (λ f. function_stub f.name f.docs f.params f.ret) m.functions
        ++ (of_kind ns (λ c. c.name) (class_stub new_line is_interface) m.classes
            ++ of_kind ns (λ e. e.name) enum_stub m.enums))

belonging-append :
    (ns : Option Bytes) (es fs : List Keyed)
    → belonging ns (es ++ fs) ≡ belonging ns es ++ belonging ns fs
unfolding belonging
belonging-append ns [] fs = refl
belonging-append ns ((q, stub) ∷ es) fs =
    elim (Bool-cases (same_namespace (split_namespace q).0 ns)) [
      | inl e ↦ rw (e, belonging-append ns es fs) refl
      | inr e ↦ rw (e, belonging-append ns es fs) refl
    ]

belonging-map :
    {A : Type 0} (ns : Option Bytes) (name stub : A → Bytes) (xs : List A)
    → belonging ns (map (λ x. (name x, stub x)) xs) ≡ of_kind ns name stub xs
unfolding belonging
belonging-map ns name stub [] = refl
belonging-map ns name stub (x ∷ xs) = rw (belonging-map ns name stub xs) refl

belonging-entities :
    (new_line : Bytes) (is_interface : ℕ → Bool) (m : Module) (ns : Option Bytes)
    → belonging ns (entities new_line is_interface m) ≡ declared_in new_line is_interface m ns
unfolding entities
belonging-entities new_line is_interface m ns =
    let constants : List Keyed = map (λ (c : Constant). (c.name, constant_stub c)) m.constants in
    let functions : List Keyed =
      map (λ (f : Function). (f.name, function_stub f.name f.docs f.params f.ret)) m.functions in
    let classes : List Keyed =
      map (λ (c : Class). (c.name, class_stub new_line is_interface c)) m.classes in
    let enums : List Keyed = map (λ (e : Enum). (e.name, enum_stub e)) m.enums in
    rw
      (
        belonging-append ns constants (functions ++ (classes ++ enums)),
        belonging-append ns functions (classes ++ enums),
        belonging-append ns classes enums,
        belonging-map ns (λ c. c.name) constant_stub m.constants,
        belonging-map ns (λ f. f.name) (λ f. function_stub f.name f.docs f.params f.ret)
            m.functions,
        belonging-map ns (λ c. c.name) (class_stub new_line is_interface) m.classes,
        belonging-map ns (λ e. e.name) enum_stub m.enums,
      )
      refl

-- Among the buckets of a module, as they are printed, the one of each namespace holds exactly the stubs
-- of the constants, functions, classes and enums of that namespace under their own names, in the order of
-- these names; and no namespace is printed twice.
pub bucket_of-buckets :
    (new_line : Bytes) (is_interface : ℕ → Bool) (m : Module) (ns : Option Bytes)
    → Perm (bucket_of ns (buckets new_line is_interface m)) (declared_in new_line is_interface m ns)
      × InOrder (bucket_of ns (buckets new_line is_interface m))
      × NoTwice (buckets new_line is_interface m)
unfolding buckets NoTwice belonging bucket_of entities
bucket_of-buckets new_line is_interface m ns =
    let es = entities new_line is_interface m in
    let once = in_order-NoTwice (group es []) (group-NoTwice es [] tt) in
    let mine = declared_in new_line is_interface m ns in
    let held : bucket_of ns (sort_by namespace_greater (map in_order (group es []))) ≡ sorted mine =
      bucket_of-sort_by namespace_greater ns (map in_order (group es [])) once
      ∙ bucket_of-in_order ns (group es [])
      ∙ ap sorted (bucket_of-group_onto ns es [] ∙ belonging-entities new_line is_interface m ns) in
    (
      subst (λ b. Perm b mine) (sym held) (sorted-Perm mine),
      subst InOrder (sym held) (sorted-InOrder mine),
      sort_by-NoTwice namespace_greater (map in_order (group es [])) once,
    )
