-- ===== src/PhpName/Rename.antt =====
-- What the renaming of classes, constants and methods promises.
use ext_php_rs.Prelude.{
  Bool, true, false, Option, [], ◌∷◌, ◌++◌, Bytes, codes, ◌≡◌, ◌≢◌, ◌↔◌, ◌⊎◌, inl, inr, refl, sym,
  ap, ◌∙◌, arith, if◌then◌else◌, map, Option-cases,
}
use mathlib.Core.Path.{subst}
use ext_php_rs.PhpName.Keywords.{magic_method}
use ext_php_rs.PhpName.{
  strip_prefix, or_name, ident_to_php_name, RenameRule, Case, rename, contains, magic_name,
  rename_unless_magic, rename_method,
}

strip_prefix_lem : (p s t : Bytes) → (strip_prefix p s ≡ Option.some t) ↔ (s ≡ p ++ t)
strip_prefix_lem [] s t = ground arith
strip_prefix_lem (c ∷ p) [] t = ground arith
strip_prefix_lem (c ∷ p) (d ∷ s) t = ground (arith, strip_prefix_lem p s t)

stripped_iff :
    (p s t : Bytes)
    → (or_name (strip_prefix p s) s ≡ t) ↔ ((s ≡ p ++ t) ⊎ ((s ≡ t) × ((u : Bytes) → s ≢ p ++ u)))
stripped_iff p s t = elim (Option-cases (strip_prefix p s)) [
  | inl e ↦
      subst (λ o. (or_name o s ≡ t) ↔ ((s ≡ p ++ t) ⊎ ((s ≡ t) × ((u : Bytes) → s ≢ p ++ u))))
        (sym e)
        (
          λ h. inr (h, λ u q. let c = (strip_prefix_lem p s u).1 q in cc),
          λ h. elim h [ inl q ↦ absurd (let c = (strip_prefix_lem p s t).1 q in cc) | inr q ↦ q.0 ],
        )
  | inr (v, e) ↦
      subst (λ o. (or_name o s ≡ t) ↔ ((s ≡ p ++ t) ⊎ ((s ≡ t) × ((u : Bytes) → s ≢ p ++ u))))
        (sym e)
        (
          λ h. inl ((strip_prefix_lem p s v).0 e ∙ ap (λ x. p ++ x) h),
          λ h. elim h [
            | inl q ↦ (let c = (strip_prefix_lem p s t).1 q in cc)
            | inr q ↦ absurd (q.1 v ((strip_prefix_lem p s v).0 e))
          ],
        )
]

-- The PHP name of an identifier is the rest of a raw one and an ordinary one itself.
pub ident_to_php_name_iff :
    (ident name : Bytes)
    → (ident_to_php_name ident ≡ name)
      ↔ ((ident ≡ codes "r#" ++ name) ⊎ ((ident ≡ name) × ((t : Bytes) → ident ≢ codes "r#" ++ t)))
unfolding ident_to_php_name
ident_to_php_name_iff ident name = stripped_iff (codes "r#") ident name

-- The magic methods as PHP spells them.
magic_names :
    map magic_name magic_method
    ≡ codes "__construct"
      ∷ codes "__destruct"
      ∷ codes "__call"
      ∷ codes "__callStatic"
      ∷ codes "__get"
      ∷ codes "__set"
      ∷ codes "__isset"
      ∷ codes "__unset"
      ∷ codes "__sleep"
      ∷ codes "__wakeup"
      ∷ codes "__serialize"
      ∷ codes "__unserialize"
      ∷ codes "__toString"
      ∷ codes "__invoke"
      ∷ codes "__set_state"
      ∷ codes "__clone"
      ∷ codes "__debugInfo"
      ∷ []
unfolding magic_method
magic_names = refl

if-same : (b : Bool) (s : Bytes) → s ≡ (if b then s else s)
if-same true s = refl
if-same false s = refl

-- A method is renamed by the rule unless the rule is not `none` and the method is a magic one, which
-- gets PHP's spelling whatever the rule and the case conversion are.
pub rename_method_lem :
    (to_case : Bytes → Case → Bytes) (rule : RenameRule) (original : Bytes)
    → rename_method to_case rule original ≡ (
        if contains magic_method original
        then elim rule [ RenameRule.none ↦ original | _ ↦ magic_name original ]
        else rename to_case rule original)
unfolding rename_method rename rename_unless_magic
rename_method_lem to_case RenameRule.none s = if-same (contains magic_method s) s
rename_method_lem to_case RenameRule.camel s = refl
rename_method_lem to_case RenameRule.snake s = refl
rename_method_lem to_case RenameRule.pascal s = refl
rename_method_lem to_case RenameRule.screaming_snake s = refl
