-- ===== src/Files/Path/Bounds.antt =====
-- The loop ends on every path, and how long its result can be.
use garn_os.Prelude.{ℕ, ◌+◌, ◌≤◌, Option, none, some, List, length}
use garn_os.Files.Path.{path_max}

-- What a result says of the arguments.
abbrev pub Bounded : List ℕ → List ℕ → Option (List ℕ) → Type 0
Bounded root relative none = path_max ≤ length root + length relative
Bounded root relative (some out) = length out ≤ path_max + 1
