-- ===== src/Tests/StringTests.antt =====
-- The strings "ab" at address 10 and "abc" at address 50.
use garn_os.Prelude.{ℕ, ◌-◌, ◌^◌, ◌≡◌, ◌==◌, refl, arith, ltb, if◌then◌else◌, some, [], ◌∷◌, get_or}
use garn_os.Files.Vnodes.{same_string}
use garn_os.Memutil.{Memory, strcmp, strncmp}
use garn_os.Memutil.Strings.{StringAt, strcmp-same_string}

abbrev memory : Memory
memory a =
    if ltb a 50
    then (if ltb a 10 then 0 else get_or (97 ∷ 98 ∷ []) (a - 10) 0)
    else get_or (97 ∷ 98 ∷ 99 ∷ []) (a - 50) 0

ab : StringAt memory 10 (97 ∷ 98 ∷ [])
ab = (refl, (omega arith, omega arith), (refl, (omega arith, omega arith), refl))

abc : StringAt memory 50 (97 ∷ 98 ∷ 99 ∷ [])
abc = (
  refl,
  (omega arith, omega arith),
  (refl, (omega arith, omega arith), (refl, (omega arith, omega arith), refl)),
)

strcmp-same_string_example :
    (d : ℕ) × (strcmp 3 memory 10 50 ≡ some d)
    × ((d == 0) ≡ same_string (97 ∷ 98 ∷ []) (97 ∷ 98 ∷ 99 ∷ []))
strcmp-same_string_example =
    strcmp-same_string 3 memory 10 50 (97 ∷ 98 ∷ []) (97 ∷ 98 ∷ 99 ∷ []) ab abc (omega arith)

-- "ab" is below "abc", and their first two characters agree.
order : (strcmp 3 memory 10 50 ≡ some (2 ^ 32 - 99)) × (strncmp memory 10 50 2 ≡ 0)
unfolding strcmp strncmp
order = (refl, refl)
