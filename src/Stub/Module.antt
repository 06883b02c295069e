-- ===== src/Stub/Module.antt =====
-- src/describe/stub.rs: the stubs of classes, enums and of the whole module.
pub mod Buckets
pub mod Order
use ext_php_rs.Prelude.{
  ℕ, Bool, true, false, not, ◌&&◌, Option, none, some, List, [], ◌∷◌, ◌++◌, map, Bytes, codes,
  text_eq, if◌then◌else◌,
}
use ext_php_rs.Text.Str.{is_nil, join}
use ext_php_rs.Stub.Types.{Parameter, Retval, split_namespace, indent}
use ext_php_rs.Stub.Phpdoc.{line, concat, function_stub}
use ext_php_rs.Stub.Members.{
  Property, Method, Constant, EnumCase, docs_stub, property_stub, method_stub, constant_stub,
  case_stub,
}
use ext_php_rs.Stub.Sorting.{greater, sort_by}

-- A sort key and a stub.
abbrev pub Keyed : Type 0
Keyed = Bytes × Bytes

abbrev pub key_greater : Keyed → Keyed → Bool
unfolding greater
key_greater a b = greater a.0 b.0

-- `sort_by(|(a, _), (b, _)| a.cmp(b))`
unfoldable pub sorted : List Keyed → List Keyed
unfolding key_greater
sorted bucket = sort_by key_greater bucket

pub record Class : Type 0 where
  pub name : Bytes
  pub docs : List Bytes
  pub extends : Option Bytes
  pub implements : List Bytes
  pub properties : List Property
  pub methods : List Method
  pub constants : List Constant
  pub flags : ℕ

abbrev pub extends_stub : Option Bytes → Bytes
extends_stub none = []
extends_stub (some extends) = codes "extends " ++ (extends ++ codes " ")

-- `is_interface` is `contains(ClassFlags::Interface)` on the flags, or on none where a bit is unknown.
module _ (new_line : Bytes) (is_interface : ℕ → Bool) where
  -- The stubs of one kind of members, indented and in the order of the names.
  abbrev pub members : {A : Type 0} → (A → Bytes) → (A → Bytes) → List A → List Bytes
  unfolding indent sorted
  members name stub xs =
      map (λ k. k.1) (sorted (map (λ x. (name x, indent new_line (stub x) 4)) xs))

  abbrev pub class_body : Class → List Bytes
  unfolding members
  class_body c =
      members (λ k. k.name) constant_stub c.constants
      ++ (members (λ p. p.name) property_stub c.properties
          ++ members (λ m. m.name) method_stub c.methods)

  -- `impl ToStub for Class`
  unfoldable pub class_stub : Class → Bytes
  unfolding docs_stub class_body
  class_stub c =
      let interface = is_interface c.flags in
      docs_stub c.docs
      ++ ((if interface then codes "interface " else codes "class ")
          ++ ((split_namespace c.name).1
              ++ (codes " "
                  ++ (extends_stub c.extends
                      ++ ((if is_nil c.implements
                            then []
                            else (if interface then codes "extends " else codes "implements ")
                              ++ (join (codes ", ") c.implements ++ codes " "))
                          ++ (line (codes "{")
                              ++ (join new_line (class_body c) ++ line (codes "}"))))))))

pub record Enum : Type 0 where
  pub name : Bytes
  pub docs : List Bytes
  pub cases : List EnumCase
  pub backing_type : Option Bytes

abbrev pub backing : Option Bytes → Bytes
backing none = []
backing (some backing_type) = codes ": " ++ backing_type

-- `impl ToStub for Enum`
unfoldable pub enum_stub : Enum → Bytes
unfolding docs_stub
enum_stub e =
    docs_stub e.docs
    ++ (codes "enum "
        ++ ((split_namespace e.name).1
            ++ (backing e.backing_type
                ++ (line (codes " {") ++ (concat (map case_stub e.cases) ++ line (codes "}"))))))

pub record Function : Type 0 where
  pub name : Bytes
  pub docs : List Bytes
  pub ret : Option Retval
  pub params : List Parameter

pub record Module : Type 0 where
  pub name : Bytes
  pub functions : List Function
  pub classes : List Class
  pub enums : List Enum
  pub constants : List Constant

abbrev pub same_namespace : Option Bytes → Option Bytes → Bool
same_namespace none none = true
same_namespace (some m) (some n) = text_eq m n
same_namespace m n = false

-- `entries.entry(ns).or_default()`, and the push to that bucket.
abbrev pub Buckets : Type 0
Buckets = List (Option Bytes × List Keyed)

unfoldable pub insert_entry : Option Bytes → Keyed → Buckets → Buckets
insert_entry ns entry [] = (ns, entry ∷ []) ∷ []
insert_entry ns entry ((n, bucket) ∷ entries) =
    if same_namespace n ns
    then (n, bucket ++ entry ∷ []) ∷ entries
    else (n, bucket) ∷ insert_entry ns entry entries

-- The loops over the entities, each a qualified name with its stub.
unfoldable pub group : List Keyed → Buckets → Buckets
group [] entries = entries
group ((qualified_name, stub) ∷ es) entries =
    let (ns, name) = split_namespace qualified_name in
    group es (insert_entry ns (name, stub) entries)

-- The order of the namespaces, no namespace last.
abbrev pub namespace_greater : Option Bytes × List Keyed → Option Bytes × List Keyed → Bool
unfolding greater
namespace_greater (none, b) r = true
namespace_greater (some l, b) (none, d) = false
namespace_greater (some l, b) (some r, d) = greater l r

module _ (new_line : Bytes) (is_interface : ℕ → Bool) where
  unfoldable pub entities : Module → List Keyed
  entities m =
      map (λ c. (c.name, constant_stub c)) m.constants
      ++ (map (λ f. (f.name, function_stub f.name f.docs f.params f.ret)) m.functions
          ++ (map (λ c. (c.name, class_stub new_line is_interface c)) m.classes
              ++ map (λ e. (e.name, enum_stub e)) m.enums))

  abbrev pub bucket_stub : Option Bytes × List Keyed → Bytes
  unfolding indent
  bucket_stub (ns, entries) =
      line
        (elim ns [ some n ↦ codes "namespace " ++ (n ++ codes " {") | none ↦ codes "namespace {" ])
      ++ (join new_line (map (λ k. indent new_line k.1 4) entries) ++ line (codes "}"))

  -- The buckets in the order in which they are printed.
  unfoldable pub buckets : Module → Buckets
  unfolding namespace_greater
  buckets m = sort_by namespace_greater (map (λ b. (b.0, sorted b.1)) (group (entities m) []))

  -- `impl ToStub for Module`
  unfoldable pub module_stub : Module → Bytes
  unfolding bucket_stub
  module_stub m =
      line (codes "<?php")
      ++ (line []
          ++ (line (codes "// Stubs for " ++ m.name)
              ++ (line [] ++ join new_line (map bucket_stub (buckets m)))))
