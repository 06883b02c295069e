-- ===== src/PhpEval/Strip.antt =====
-- What src/php_eval.rs takes off embedded code before PHP compiles it.
use ext_php_rs.Prelude.{
  ℕ, true, false, none, some, [], ◌∷◌, ◌++◌, Bytes, ◌≡◌, refl, ap, ◌↔◌, arith, if◌then◌else◌,
}
use ext_php_rs.Text.Ascii.{is_ascii_whitespace, eq_ignore_ascii_case, trim_ascii_start, AllSpace}
use ext_php_rs.PhpEval.{first_visible, without_tag, strip_php_open_tag, open_tag}

-- Nothing, or a text whose first byte is no white space.
abbrev pub Visible : Bytes → Type 0
Visible [] = Unit
Visible (c ∷ s) = is_ascii_whitespace c ≡ false

-- White space, an open tag in any case, white space, and the code.
pub record Tagged (code rest : Bytes) : Type 0 where
  pub space : Bytes
  pub tag : Bytes
  pub gap : Bytes
  pub whole : code ≡ space ++ (tag ++ (gap ++ rest))
  pub space_lem : AllSpace space
  pub tag_lem : eq_ignore_ascii_case tag open_tag ≡ true
  pub gap_lem : AllSpace gap
  pub rest_lem : Visible rest

-- A text as white space and what follows it.
record Split (s t : Bytes) : Type 0 where
  space : Bytes
  whole : s ≡ space ++ t
  space_lem : AllSpace space

Split-more : (c : ℕ) (s t : Bytes) → is_ascii_whitespace c ≡ true → Split s t → Split (c ∷ s) t
Split-more c s t h p = record {
  space = c ∷ p.space;
  whole = ap (λ u. c ∷ u) p.whole;
  space_lem = (h, p.space_lem);
}

trim_ascii_start-Split : (s : Bytes) → Split s (trim_ascii_start s) × Visible (trim_ascii_start s)
unfolding trim_ascii_start
trim_ascii_start-Split [] = (record { space = []; whole = refl; space_lem = tt }, tt)
trim_ascii_start-Split (c ∷ s) =
    let rest = trim_ascii_start-Split s in
    elim (is_ascii_whitespace c)
        as (λ b.
          is_ascii_whitespace c ≡ b
          → let t = if b then trim_ascii_start s else c ∷ s in Split (c ∷ s) t × Visible t) [
            | true ↦ λ h. (Split-more c s (trim_ascii_start s) h rest.0, rest.1)
            | false ↦ λ h. (record { space = []; whole = refl; space_lem = tt }, h)
          ]
      refl

trim_ascii_start_gap :
    (gap rest : Bytes) → AllSpace gap → Visible rest → trim_ascii_start (gap ++ rest) ≡ rest
unfolding trim_ascii_start
trim_ascii_start_gap [] [] a v = refl
trim_ascii_start_gap [] (c ∷ rest) a v = rw v refl
trim_ascii_start_gap (c ∷ gap) rest a v = rw a.0 (trim_ascii_start_gap gap rest a.1 v)

first_visible-Split : (s t : Bytes) → first_visible s ≡ some t → Split s t
unfolding first_visible
first_visible-Split [] t h = cc
first_visible-Split (c ∷ s) t h =
    elim (is_ascii_whitespace c)
        as (λ b.
          is_ascii_whitespace c ≡ b
          → (if b then first_visible s else some (c ∷ s)) ≡ some t
          → Split (c ∷ s) t) [
            | true ↦ λ b e. Split-more c s t b (first_visible-Split s t e)
            | false ↦ λ b e. record { space = []; whole = cc; space_lem = tt }
          ]
      refl h

first_visible_space :
    (space t : Bytes) → AllSpace space → first_visible (space ++ t) ≡ first_visible t
unfolding first_visible
first_visible_space [] t a = refl
first_visible_space (c ∷ space) t a = rw a.0 (first_visible_space space t a.1)

without_tag-Tagged :
    (space t rest : Bytes) → AllSpace space → without_tag t ≡ some rest → Tagged (space ++ t) rest
unfolding without_tag
without_tag-Tagged space (a ∷ b ∷ c ∷ d ∷ e ∷ s) rest h w =
    let tag : Bytes = a ∷ b ∷ c ∷ d ∷ e ∷ [] in
    let (p, v) = trim_ascii_start-Split s in
    elim (eq_ignore_ascii_case tag open_tag)
        as (λ q.
          eq_ignore_ascii_case tag open_tag ≡ q
          → (if q then some (trim_ascii_start s) else none) ≡ some rest
          → Tagged (space ++ a ∷ b ∷ c ∷ d ∷ e ∷ s) rest) [
            | true ↦ λ q o.
                let same : trim_ascii_start s ≡ rest = cc in
                record {
                  space = space;
                  tag = tag;
                  gap = p.space;
                  whole = rw (← same) (ap (λ u. space ++ (tag ++ u)) p.whole);
                  space_lem = h;
                  tag_lem = q;
                  gap_lem = p.space_lem;
                  rest_lem = rw (← same) v;
                }
            | false ↦ λ q o. cc
          ]
      refl w
without_tag-Tagged space _ rest h w = cc

tagged_stripped :
    (tag gap rest : Bytes)
    → eq_ignore_ascii_case tag open_tag ≡ true
    → AllSpace gap
    → Visible rest
    → without_tag (tag ++ (gap ++ rest)) ≡ some rest
unfolding without_tag
tagged_stripped (a ∷ b ∷ c ∷ d ∷ e ∷ []) gap rest t g v =
    rw (t, trim_ascii_start_gap gap rest g v) refl
tagged_stripped _ gap rest t g v = ground arith

-- The first byte of an open tag is no white space.
first_visible-tag :
    (tag t : Bytes)
    → eq_ignore_ascii_case tag open_tag ≡ true
    → first_visible (tag ++ t) ≡ some (tag ++ t)
unfolding first_visible
first_visible-tag [] t h = cc
first_visible-tag (c ∷ tag) t h =
    let not_space : is_ascii_whitespace c ≡ false = ground arith in rw not_space refl

stripped-Tagged : (code rest : Bytes) → strip_php_open_tag code ≡ some rest → Tagged code rest
unfolding strip_php_open_tag
stripped-Tagged code rest h =
    elim (first_visible code)
        as (λ o.
          first_visible code ≡ o
          → elim o [ some trimmed ↦ without_tag trimmed | none ↦ none ] ≡ some rest
          → Tagged code rest) [
            | some t ↦ λ e w.
                let p = first_visible-Split code t e in
                rw p.whole (without_tag-Tagged p.space t rest p.space_lem w)
            | none ↦ λ e w. cc
          ]
      refl h

Tagged-stripped : (code rest : Bytes) → Tagged code rest → strip_php_open_tag code ≡ some rest
unfolding strip_php_open_tag
Tagged-stripped code rest p =
    rw
      (
        p.whole,
        strip_php_open_tag,
        first_visible_space p.space (p.tag ++ (p.gap ++ rest)) p.space_lem,
        first_visible-tag p.tag (p.gap ++ rest) p.tag_lem,
      )
      (tagged_stripped p.tag p.gap rest p.tag_lem p.gap_lem p.rest_lem)

-- Code has an open tag exactly when it is white space, `<?php` in any mixture of cases, white space
-- and a rest that starts with no white space: that rest is what PHP compiles.
pub strip_php_open_tag-Tagged :
    (code rest : Bytes) → (strip_php_open_tag code ≡ some rest) ↔ Tagged code rest
strip_php_open_tag-Tagged code rest = (stripped-Tagged code rest, Tagged-stripped code rest)
