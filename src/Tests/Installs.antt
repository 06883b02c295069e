-- ===== src/Tests/Installs.antt =====
-- The theorems on crates/cli/src/lib.rs at concrete inputs.
use ext_php_rs.Prelude.{true, false, ◌||◌, none, some, [], ◌∷◌, ◌++◌, codes, ◌≡◌, refl}
use ext_php_rs.Text.Str.{join, split, find, strip_prefix}
use ext_php_rs.CargoPhp.{
  ext_line, Disk, Answers, failed, smoke_test_failed, already_enabled, new_line, lines,
  stripped_lines, strip_return, enable, overwrite, test_and_enable, install,
}
use ext_php_rs.CargoPhp.Failures.{Unnamed, lines_if, install_failed, install_succeeded}

abbrev disk : Disk
disk = record { temp = none; extension = some (codes "old"); php_ini = codes "a=1" }

abbrev loads : Answers
loads = record {
  copied = true;
  rename = true;
  remove = true;
  ran = true;
  smoke_test = true;
  opened = true;
  read = true;
  readable = 0;
  rewind = true;
  set_len = true;
  write = true;
  written = λ s. s;
}

abbrev crashes : Answers
crashes = record loads { smoke_test = false }

install_failed_example :
    (install crashes false true false (codes "x.so") (codes "new") disk).1.php_ini ≡ codes "a=1"
unfolding install test_and_enable
install_failed_example =
    install_failed crashes false true false (codes "x.so") (codes "new") disk smoke_test_failed refl
      (λ e. cc)

install_succeeded_example :
    let d' = (install loads false true false (codes "x.so") (codes "new") disk).1 in
    (d'.extension ≡ some (codes "new"))
    × (d'.temp ≡ none)
    × Unnamed (ext_line (codes "x.so")) (lines_if true (codes "a=1"))
    × ((false || true) ≡ true)
    × (d'.php_ini ≡ join (10 ∷ []) (lines (codes "a=1") ++ new_line false (codes "x.so") ∷ []))
unfolding install test_and_enable enable overwrite lines stripped_lines strip_return split find
    strip_prefix
install_succeeded_example =
    install_succeeded loads false true false (codes "x.so") (codes "new") disk refl

-- The version that was installed before is gone when the new one does not load.
old_version_lost :
    (install crashes false true false (codes "x.so") (codes "new") disk).1.extension ≡ none
unfolding install test_and_enable
old_version_lost = refl

-- A line behind a semicolon counts as an enabled extension.
comment_counts :
    (install loads false true false
      (codes "x.so")
      (codes "new")
      (record disk { php_ini = codes ";extension=x.so" })).0
    ≡ failed already_enabled
unfolding install test_and_enable enable overwrite lines stripped_lines strip_return split find
    strip_prefix
comment_counts = refl
