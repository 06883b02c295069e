-- ===== src/CargoPhp.antt =====
-- crates/cli/src/lib.rs: how `cargo php install` and `cargo php remove` change the file of the extension
-- and `php.ini`. Files are their contents; what the file system and PHP answer is an argument.
pub mod Failures
use ext_php_rs.Prelude.{
  ℕ, zero, suc, Bool, true, false, not, Option, none, some, List, [], ◌∷◌, ◌++◌, Bytes, codes, ◌==◌,
  if◌then◌else◌,
}
use ext_php_rs.Text.Str.{split, join, find, is_nil}

-- `str::contains`
abbrev pub contains_text : Bytes → Bytes → Bool
contains_text s pattern = elim (find pattern s) [ some parts ↦ true | none ↦ is_nil pattern ]

-- `BufRead::lines`: a line ends with a line feed, which a carriage return may precede, and what
-- follows the last line feed is a line if there is something.
unfoldable pub strip_return : Bytes → Bytes
strip_return [] = []
strip_return (c ∷ []) = if c == 13 then [] else c ∷ []
strip_return (c ∷ d ∷ s) = c ∷ strip_return (d ∷ s)

unfoldable pub stripped_lines : List Bytes → List Bytes
unfolding strip_return
stripped_lines [] = []
stripped_lines (last ∷ []) = if is_nil last then [] else last ∷ []
stripped_lines (l ∷ m ∷ ls) = strip_return l ∷ stripped_lines (m ∷ ls)

unfoldable pub lines : Bytes → List Bytes
unfolding stripped_lines
lines s = stripped_lines (split 10 s)

-- The file of the extension, the temporary one beside it, and `php.ini`.
pub record Disk : Type 0 where
  pub temp : Option Bytes
  pub extension : Option Bytes
  pub php_ini : Bytes

-- Where a command fails.
pub data Failure : Type 0 where
  copy_failed rename_failed smoke_test_not_run smoke_test_failed open_failed read_failed : Failure
  rewind_failed set_len_failed : Failure
  already_enabled write_failed not_installed remove_failed : Failure

pub data Outcome : Type 0 where
  succeeded : Outcome
  failed : Failure → Outcome

-- The answers: whether each operation succeeds, those included whose result is thrown away, whether PHP
-- runs and loads the file, how many lines can be read where not all can, and how much of `php.ini` the
-- one call of `write` writes.
pub record Answers : Type 0 where
  pub copied : Bool
  pub rename : Bool
  pub remove : Bool
  pub ran : Bool
  pub smoke_test : Bool
  pub opened : Bool
  pub read : Bool
  pub readable : ℕ
  pub rewind : Bool
  pub set_len : Bool
  pub write : Bool
  pub written : Bytes → Bytes

-- `rewind`, `set_len(0)` and `write`
unfoldable pub overwrite : Answers → List Bytes → Disk → Outcome × Disk
overwrite a new_lines d =
    if not a.rewind
    then (failed rewind_failed, d)
    else if not a.set_len
    then (failed set_len_failed, d)
    else if a.write
    then (succeeded, record d { php_ini = a.written (join (10 ∷ []) new_lines) })
    else (failed write_failed, record d { php_ini = [] })

abbrev pub any_contains : Bytes → List Bytes → Bool
any_contains pattern [] = false
any_contains pattern (l ∷ ls) = if contains_text l pattern then true else any_contains pattern ls

abbrev pub first : ℕ → List Bytes → List Bytes
first zero ls = []
first (suc n) [] = []
first (suc n) (l ∷ ls) = l ∷ first n ls

-- The line that enables the extension, or one that names it behind a semicolon.
abbrev pub ext_line : Bytes → Bytes
ext_line ext_name = codes "extension=" ++ ext_name

abbrev pub new_line : Bool → Bytes → Bytes
new_line disable ext_name = if disable then 59 ∷ ext_line ext_name else ext_line ext_name

unfoldable pub enable : Answers → Bool → Bytes → Disk → Outcome × Disk
unfolding overwrite lines
enable a disable ext_name d =
    let old = lines d.php_ini in
    let updated = overwrite a (old ++ new_line disable ext_name ∷ []) d in
    if not a.opened
    then (failed open_failed, d)
    else if any_contains (ext_line ext_name) (if a.read then old else first a.readable old)
    then (failed already_enabled, d)
    else if not a.read
    then (failed read_failed, d)
    else updated

-- The file in `php.ini` is updated if there is one to update.
abbrev pub enable_in : Answers → Bool → Bool → Bytes → Disk → Outcome × Disk
enable_in a has_ini disable ext_name d =
    if has_ini then enable a disable ext_name d else (succeeded, d)

abbrev pub removed : Bool → Option Bytes → Option Bytes
removed true file = none
removed false file = file

-- What follows the rename: the smoke test, whose failure removes the file, and `php.ini`.
unfoldable pub test_and_enable : Answers → Bool → Bool → Bool → Bytes → Disk → Outcome × Disk
unfolding enable
test_and_enable a no_smoke_test has_ini disable ext_name d =
    let enabled = enable_in a has_ini disable ext_name d in
    if no_smoke_test
    then enabled
    else if not a.ran
    then (failed smoke_test_not_run, d)
    else if a.smoke_test
    then enabled
    else (failed smoke_test_failed, record d { extension = removed a.remove d.extension })

-- `Install::handle` from the copy on.
unfoldable pub install : Answers → Bool → Bool → Bool → Bytes → Bytes → Disk → Outcome × Disk
unfolding test_and_enable
install a no_smoke_test has_ini disable ext_name built d =
    let renamed = record d { temp = none; extension = some built } in
    let rest = test_and_enable a no_smoke_test has_ini disable ext_name renamed in
    if not a.copied
    then (failed copy_failed, d)
    else if a.rename
    then rest
    else (failed rename_failed, record d { temp = removed a.remove (some built) })

unfoldable pub without : Bytes → List Bytes → List Bytes
without ext_file [] = []
without ext_file (l ∷ ls) =
    let rest = without ext_file ls in if contains_text l ext_file then rest else l ∷ rest

abbrev pub is_missing : Option Bytes → Bool
is_missing none = true
is_missing (some file) = false

-- `Remove::handle` from the test for the file on; the prompt was answered with yes.
unfoldable pub remove_extension : Answers → Bool → Bytes → Disk → Outcome × Disk
unfolding overwrite lines without
remove_extension a has_ini ext_file d =
    let deleted = record d { extension = none } in
    let updated = overwrite a (without ext_file (lines d.php_ini)) deleted in
    if is_missing d.extension
    then (failed not_installed, d)
    else if not a.remove
    then (failed remove_failed, d)
    else if not has_ini
    then (succeeded, deleted)
    else if not a.opened
    then (failed open_failed, deleted)
    else if not a.read
    then (failed read_failed, deleted)
    else updated
