-- ===== src/Files/Path/Clean.antt =====
-- Paths in which nothing is to be removed, and the end of the loop on every path.
use garn_os.Prelude.{
  ℕ, zero, suc, ◌+◌, ◌-◌, ◌<◌, ◌≡◌, ◌≢◌, inl, inr, refl, ap, subst, arith, Bool, true, false, ◌&&◌,
  ◌||◌, some, List, [], ◌∷◌, ◌++◌, ltb, ◌==◌, if◌then◌else◌, length, get_or, drop, length-append,
  Bool-cases,
}
use garn_os.Prelude.Exec.{done}
use garn_os.Files.Path.{
  path_max, starts_with, check_step, check_path, found, vnode_get_absolute_path,
}

-- A slash, and a dot or a slash behind it.
abbrev pub removable : List ℕ → Bool
removable (c ∷ d ∷ s) = (c == b'/') && ((d == b'.') || (d == b'/'))
removable _ = false

abbrev pub IsClean : List ℕ → Type 0
IsClean [] = Unit
IsClean (c ∷ s) = (removable (c ∷ s) ≡ false) × IsClean s

check_step-clean :
    (buf : List ℕ) (i d : ℕ) → removable (drop i buf) ≡ false → check_step buf i d ≡ buf
unfolding check_step
check_step-clean buf i d h =
    let (four, three, two, slashes) = no_prefix (drop i buf) h in
    rw (four, three, two, slashes) refl
  where
    no_prefix :
        (s : List ℕ)
        → removable s ≡ false
        → (starts_with (b'/' ∷ b'.' ∷ b'.' ∷ b'/' ∷ []) s ≡ false)
          × (starts_with (b'/' ∷ b'.' ∷ b'.' ∷ []) s ≡ false)
          × (starts_with (b'/' ∷ b'.' ∷ []) s ≡ false)
          × (starts_with (b'/' ∷ b'/' ∷ []) s ≡ false)
    no_prefix [] h = (refl, refl, refl, refl)
    no_prefix (c ∷ []) h = (ground arith, ground arith, ground arith, ground arith)
    no_prefix (c ∷ e ∷ s) h = (ground arith, ground arith, ground arith, ground arith)

drop-IsClean : (buf : List ℕ) (i : ℕ) → IsClean (drop i buf) → IsClean (drop (suc i) buf)
drop-IsClean [] zero h = tt
drop-IsClean [] (suc i) h = tt
drop-IsClean (c ∷ buf) zero h = h.1
drop-IsClean (c ∷ buf) (suc i) h = drop-IsClean buf i h

IsClean-removable : (s : List ℕ) → IsClean s → removable s ≡ false
IsClean-removable [] h = refl
IsClean-removable (c ∷ s) h = h.0

-- From an index on where nothing is to be removed, the loop leaves the buffer.
check_path-IsClean :
    (fuel : ℕ) (buf : List ℕ) (i d : ℕ)
    → length buf < fuel + i
    → IsClean (drop i buf)
    → check_path (suc fuel) buf i d ≡ done buf
unfolding check_path
check_path-IsClean zero buf i d f h =
    let past : ltb i (length buf) ≡ false = ground arith in rw past refl
check_path-IsClean (suc fuel) buf i d f h =
    let here : (d' : ℕ) → check_step buf i d' ≡ buf =
      λ d'. check_step-clean buf i d' (IsClean-removable (drop i buf) h) in
    let next : IsClean (drop (i + 1) buf) =
      (let e : suc i ≡ i + 1 = omega arith in
        subst (λ k. IsClean (drop k buf)) e (drop-IsClean buf i h)) in
    elim (Bool-cases (ltb i (length buf))) [
      | inl more ↦ rw more (
          rw (here _) (
            check_path-IsClean fuel buf (i + 1) (if get_or buf i 0 == b'/' then d + 1 else d)
              (omega arith) next))
      | inr past ↦ rw past refl
    ]

-- A relative path behind the working directory.
abbrev pub joined : List ℕ → List ℕ → List ℕ
joined root relative =
    if get_or root (length root - 1) 0 == b'/'
    then root ++ relative ++ b'/' ∷ []
    else root ++ b'/' ∷ relative ++ b'/' ∷ []

-- A clean absolute path is its own absolute path, and a relative one is put behind the working
-- directory, with a slash between where that has none at its end, and one behind; if the whole is
-- clean and short enough.
pub vnode_get_absolute_path-IsClean :
    (fuel : ℕ) (root relative : List ℕ)
    → length root + length relative < path_max
    → path_max + 2 < fuel
    → (get_or relative 0 0 ≡ b'/'
        → IsClean relative
        → vnode_get_absolute_path (suc fuel) root relative ≡ done (some relative))
      × (get_or relative 0 0 ≢ b'/'
          → IsClean (joined root relative)
          → vnode_get_absolute_path (suc fuel) root relative ≡ done (some (joined root relative)))
unfolding vnode_get_absolute_path
vnode_get_absolute_path-IsClean fuel root relative short f =
    let fits : ltb path_max (length root + length relative) ≡ false = ground arith in
    let fits' : ltb path_max (length root + length relative + 1) ≡ false = ground arith in
    (
      λ e clean.
          let absolute : (get_or relative 0 0 == b'/') ≡ true = ground arith in
          rw (fits, absolute) (ap found (check_path-IsClean fuel relative 0 0 (omega arith) clean)),
      λ ne clean.
          let not_absolute : (get_or relative 0 0 == b'/') ≡ false = ground arith in
          elim (Bool-cases (get_or root (length root - 1) 0 == b'/')) [
            | inl ended ↦
                let c =
                  subst
                    (λ b. IsClean (
                      if b
                      then root ++ relative ++ b'/' ∷ []
                      else root ++ b'/' ∷ relative ++ b'/' ∷ []))
                    ended clean in
                rw (fits, not_absolute, ended)
                  (ap found (
                    check_path-IsClean fuel _ 0 0
                      (omega (
                        arith,
                        length-append (root ++ relative) (b'/' ∷ []),
                        length-append root relative,
                      ))
                      c))
            | inr open_end ↦
                let c =
                  subst
                    (λ b. IsClean (
                      if b
                      then root ++ relative ++ b'/' ∷ []
                      else root ++ b'/' ∷ relative ++ b'/' ∷ []))
                    open_end clean in
                rw (fits, not_absolute, open_end, fits')
                  (ap found (
                    check_path-IsClean fuel _ 0 0
                      (omega (
                        arith,
                        length-append (root ++ b'/' ∷ relative) (b'/' ∷ []),
                        length-append root (b'/' ∷ relative),
                      ))
                      c))
          ],
    )
