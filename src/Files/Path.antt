-- ===== src/Files/Path.antt =====
-- `vnode_get_absolute_path` of kernel/sys/fal/vnode.c. A C string is the list of its characters
-- before the zero. Each `memcpy` in the buffer moves the rest of the string to the left.
pub mod Clean
pub mod Bounds
use garn_os.Prelude.{
  ℕ, zero, suc, ◌+◌, ◌-◌, Bool, true, false, not, ◌&&◌, Option, none, some, List, [], ◌∷◌, ◌++◌,
  ltb, ◌==◌, if◌then◌else◌, length, get_or, take, drop,
}
use garn_os.Prelude.Exec.{Exec, done, spent}

abbrev pub path_max : ℕ
path_max = 4096

abbrev pub starts_with : List ℕ → List ℕ → Bool
starts_with [] s = true
starts_with (c ∷ cs) [] = false
starts_with (c ∷ cs) (d ∷ s) = (d == c) && starts_with cs s

-- `memcpy(&buf[i], &buf[j], strlen(&buf[j])+1)`
abbrev pub move : List ℕ → ℕ → ℕ → List ℕ
move buf i j = take i buf ++ drop j buf

-- `for(int j = i-1; j > 0; j--)`: the last slash in front, but not the first character.
unfoldable pub slash_before : List ℕ → ℕ → Option ℕ
slash_before buf zero = none
slash_before buf (suc j) =
    let rest = slash_before buf j in if get_or buf (suc j) 0 == b'/' then some (suc j) else rest

abbrev pub move_to : List ℕ → Option ℕ → ℕ → ℕ → List ℕ
move_to buf none keep j = buf
move_to buf (some i) keep j = move buf (i + keep) j

-- The buffer after one round at index `i`; `dirindex` counts the slashes up to it.
unfoldable pub check_step : List ℕ → ℕ → ℕ → List ℕ
check_step buf i dirindex =
    let rest = drop i buf in
    if starts_with (b'/' ∷ b'.' ∷ b'.' ∷ b'/' ∷ []) rest
    then (if ltb dirindex 2
        then move buf i (i + 3)
        else move_to buf (slash_before buf (i - 1)) 0 (i + 3))
    else if starts_with (b'/' ∷ b'.' ∷ b'.' ∷ []) rest
    then (if ltb dirindex 2
        then move buf i (i + 3)
        else move_to buf (slash_before buf (i - 1)) 1 (i + 3))
    else if starts_with (b'/' ∷ b'.' ∷ []) rest
    then move buf i (i + 2)
    else if starts_with (b'/' ∷ b'/' ∷ []) rest
    then move buf i (i + 1)
    else buf

-- The loop behind `checkpath`.
unfoldable pub check_path : ℕ → List ℕ → ℕ → ℕ → Exec (List ℕ)
check_path zero buf i dirindex = spent
check_path (suc fuel) buf i dirindex =
    let d = if get_or buf i 0 == b'/' then dirindex + 1 else dirindex in
    let rest = check_path fuel (check_step buf i d) (i + 1) d in
    if ltb i (length buf) then rest else done buf

abbrev pub found : Exec (List ℕ) → Exec (Option (List ℕ))
found (done buf) = done (some buf)
found _ = spent

-- `none` is the null pointer, with `kerrno` `ENAMETOOLONG`. `root` is not empty.
unfoldable pub vnode_get_absolute_path : ℕ → List ℕ → List ℕ → Exec (Option (List ℕ))
vnode_get_absolute_path fuel root relative =
    let size = length root + length relative in
    let slash = not (get_or root (length root - 1) 0 == b'/') in
    if ltb path_max size
    then done none
    else if get_or relative 0 0 == b'/'
    then found (check_path fuel relative 0 0)
    else if slash
    then (if ltb path_max (size + 1)
        then done none
        else found (check_path fuel (root ++ b'/' ∷ relative ++ b'/' ∷ []) 0 0))
    else found (check_path fuel (root ++ relative ++ b'/' ∷ []) 0 0)
