-- ===== src/Fileio/Laws.antt =====
-- Which file TryFile finds.

use onetimelink.Fileio.{file_or_const, try_read_file, try_file, try_dirs, Files, config_dir}
use onetimelink.Prelude.Text.{Bytes}
use onetimelink.Prelude.{
  ◌≢◌, [], ltb, length, ◌≡◌, some, true, false, ◌∷◌, arith, if◌then◌else◌, refl, none, Option-cases,
  inl, inr,
}

positive : (s : Bytes) → s ≢ [] → ltb 0 (length s) ≡ true
positive [] ne = absurd (ne refl)
positive (x ∷ s) ne = ground arith

-- A file in the working directory hides the one in the configuration directory, which counts where the
-- working directory has none or is not known; without either the result is empty. What cannot be read
-- or is empty leaves the fallback.
pub try_file_order :
    (fs : Files) (fn fallback : Bytes)
    → ((cwd : Bytes)
        → fs.working_dir ≡ some cwd
        → fs.opens (fs.join cwd fn) ≡ true
        → try_file fs fn ≡ fs.join cwd fn)
      × (((cwd : Bytes) → fs.working_dir ≡ some cwd → fs.opens (fs.join cwd fn) ≡ false)
          → try_file fs fn
            ≡ (if fs.opens (fs.join config_dir fn) then fs.join config_dir fn else []))
      × ((contents : Bytes)
          → fs.read_file (try_file fs fn) ≡ some contents
          → contents ≢ []
          → file_or_const fs fn fallback ≡ contents)
      × (fs.read_file (try_file fs fn) ≡ none → file_or_const fs fn fallback ≡ fallback)
unfolding file_or_const try_read_file try_file try_dirs
try_file_order fs fn fallback = (
  λ cwd there opens. ground arith,
  λ shut. elim (Option-cases fs.working_dir) [
    | inl unknown ↦ ground arith
    | inr (cwd, there) ↦ ground (arith, shut cwd there)
  ],
  λ contents read ne. ground (arith, positive contents ne),
  λ unread. ground arith,
)
