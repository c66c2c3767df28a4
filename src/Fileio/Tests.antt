-- ===== src/Fileio/Tests.antt =====
-- A working directory without the file, and a configuration directory with it.
use onetimelink.Fileio.{Files, file_or_const, try_read_file, try_file, try_dirs}
use onetimelink.Prelude.Text.{codes, str_eq, utf8, rune_bytes}
use onetimelink.Prelude.{some, ◌≡◌, if◌then◌else◌, none, [], ◌++◌, refl, ◌∷◌}

abbrev files : Files
files = record {
  working_dir = some (codes "/w");
  opens = λ p. str_eq p (codes "/etc/gjfy/f");
  read_file = λ p. if str_eq p (codes "/etc/gjfy/f") then some (codes "text") else none;
  join = λ dir fn. dir ++ 47 ∷ fn;
}

found_in_config : file_or_const files (codes "f") [] ≡ codes "text"
unfolding file_or_const try_read_file try_file try_dirs utf8 rune_bytes str_eq
found_in_config = refl
