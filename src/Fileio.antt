-- ===== src/Fileio.antt =====
-- fileio/file.go. The files are a parameter: what os.Getwd gives (none is its error), whether os.Open
-- succeeds at a path, and what os.ReadFile reads there; `join` is path.Join. Logging is left out.
mod Tests
pub mod Laws
use onetimelink.Prelude.{List, Option, Bool, if◌then◌else◌, none, some, ◌∷◌, [], ltb, length}
use onetimelink.Prelude.Text.{Bytes, utf8}

pub record Files : Type 0 where
  pub working_dir : Option Bytes
  pub opens : Bytes → Bool
  pub read_file : Bytes → Option Bytes
  pub join : Bytes → Bytes → Bytes

abbrev pub config_dir : Bytes
config_dir = utf8 "/etc/gjfy"

-- The directories that TryFile tries, in their order.
abbrev pub search_dirs : Files → List Bytes
search_dirs fs = elim fs.working_dir [ none ↦ config_dir ∷ [] | some cwd ↦ cwd ∷ config_dir ∷ [] ]

-- The loop of TryFile.
unfoldable pub try_dirs : Files → Bytes → List Bytes → Bytes
try_dirs fs fn [] = []
try_dirs fs fn (dir ∷ dirs) =
    let pn = fs.join dir fn in let rest = try_dirs fs fn dirs in if fs.opens pn then pn else rest

unfoldable pub try_file : Files → Bytes → Bytes
try_file fs fn = try_dirs fs fn (search_dirs fs)

unfoldable pub try_read_file : Files → Bytes → Bytes
try_read_file fs fn = elim (fs.read_file (try_file fs fn)) [ some contents ↦ contents | none ↦ [] ]

unfoldable pub file_or_func : Files → Bytes → (Bytes → Bytes) → Bytes
file_or_func fs fn fallback =
    let pn = try_read_file fs fn in if ltb 0 (length pn) then pn else fallback fn

unfoldable pub file_or_const : Files → Bytes → Bytes → Bytes
file_or_const fs fn fallback =
    let pn = try_read_file fs fn in if ltb 0 (length pn) then pn else fallback
