-- ===== src/CargoPhp/Failures.antt =====
-- What `cargo php install` of crates/cli/src/lib.rs leaves on the disk.
use ext_php_rs.Prelude.{
  Bool, true, false, ◌||◌, none, some, List, [], ◌∷◌, ◌++◌, All, Bool-cases, inl, inr, Bytes, ◌≡◌,
  ◌≢◌, arith, if◌then◌else◌,
}
use ext_php_rs.Text.Str.{join}
use ext_php_rs.CargoPhp.{
  Disk, Failure, write_failed, succeeded, failed, Answers, overwrite, new_line, lines, enable,
  test_and_enable, install, contains_text, any_contains, ext_line,
}

-- An installation that fails, other than in the very write of `php.ini`, leaves `php.ini` as it was.
pub install_failed :
    (a : Answers) (no_smoke_test has_ini disable : Bool) (ext_name built : Bytes) (d : Disk)
    (e : Failure)
    → (install a no_smoke_test has_ini disable ext_name built d).0 ≡ failed e
    → e ≢ write_failed
    → (install a no_smoke_test has_ini disable ext_name built d).1.php_ini ≡ d.php_ini
unfolding install test_and_enable enable overwrite
install_failed a no_smoke_test has_ini disable ext_name built d e h n = ground arith

-- No line names the extension.
abbrev pub Unnamed : Bytes → List Bytes → Type 0
Unnamed pattern ls = All (λ l. contains_text l pattern ≡ false) ls

any_contains-Unnamed :
    (pattern : Bytes) (ls : List Bytes) → any_contains pattern ls ≡ false → Unnamed pattern ls
any_contains-Unnamed pattern [] h = tt
any_contains-Unnamed pattern (l ∷ ls) h = elim (Bool-cases (contains_text l pattern)) [
  | inl e ↦ cc
  | inr e ↦ (e, any_contains-Unnamed pattern ls (ground (arith, e, h)))
]

unnamed :
    (a : Answers) (no_smoke_test disable : Bool) (ext_name built : Bytes) (d : Disk)
    → (install a no_smoke_test true disable ext_name built d).0 ≡ succeeded
    → any_contains (ext_line ext_name) (lines d.php_ini) ≡ false
unfolding install test_and_enable enable overwrite
unnamed a no_smoke_test disable ext_name built d h = ground arith

-- The lines of `php.ini` if it is to be changed.
abbrev pub lines_if : Bool → Bytes → List Bytes
lines_if has_ini s = if has_ini then lines s else []

lines_if-Unnamed :
    (a : Answers) (no_smoke_test has_ini disable : Bool) (ext_name built : Bytes) (d : Disk)
    → (install a no_smoke_test has_ini disable ext_name built d).0 ≡ succeeded
    → Unnamed (ext_line ext_name) (lines_if has_ini d.php_ini)
lines_if-Unnamed a no_smoke_test false disable ext_name built d h = tt
lines_if-Unnamed a no_smoke_test true disable ext_name built d h =
    any_contains-Unnamed (ext_line ext_name) (lines d.php_ini)
      (unnamed a no_smoke_test disable ext_name built d h)

-- An installation that succeeds leaves the file that was built and no temporary one; PHP loaded it if
-- it was tested; and `php.ini`, if it is to be changed, had no line with `extension=` and the name, and
-- is written with its lines and one more.
pub install_succeeded :
    (a : Answers) (no_smoke_test has_ini disable : Bool) (ext_name built : Bytes) (d : Disk)
    → (install a no_smoke_test has_ini disable ext_name built d).0 ≡ succeeded
    → let d' = (install a no_smoke_test has_ini disable ext_name built d).1 in
      (d'.extension ≡ some built)
      × (d'.temp ≡ none)
      × Unnamed (ext_line ext_name) (lines_if has_ini d.php_ini)
      × ((no_smoke_test || a.smoke_test) ≡ true)
      × (d'.php_ini ≡ (
          if has_ini
          then a.written (join (10 ∷ []) (lines d.php_ini ++ new_line disable ext_name ∷ []))
          else d.php_ini))
unfolding install test_and_enable enable overwrite
install_succeeded a no_smoke_test has_ini disable ext_name built d h = (
  ground arith,
  ground arith,
  lines_if-Unnamed a no_smoke_test has_ini disable ext_name built d h,
  ground arith,
  ground arith,
)
