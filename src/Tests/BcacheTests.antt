-- ===== src/Tests/BcacheTests.antt =====
-- Three buffers, and a drive 7 whose block holds its own number.
use garn_os.Prelude.{
  ℕ, zero, suc, ◌+◌, ◌≡◌, refl, arith, true, false, Option, none, some, List, [], ◌∷◌, ◌==◌,
  if◌then◌else◌,
}
use garn_os.Prelude.Exec.{done}
use garn_os.Bcache.{
  Buf, Bcache, Drives, bcache_get, bcache_release, bcache_init, link_next, link_prev,
}
use garn_os.Bcache.Chain.{IsCache}
use garn_os.Bcache.Get.{Given, bcache_get-miss}
use garn_os.Bcache.Release.{Moved, bcache_release-Moved}

abbrev drives : Drives ℕ
drives = record {
  read = λ d. if d == 7 then some (λ block n. (block ∷ [], n + 1)) else none;
  write = λ d. none;
}

abbrev buffer : ℕ → ℕ → Option ℕ → Option ℕ → Buf
buffer count block next prev = record {
  valid = true;
  dirty = false;
  ref_count = count;
  contents = block ∷ [];
  block = block;
  drive = 7;
  next = next;
  prev = prev;
}

-- Buffer 1 is in use.
abbrev cache : Bcache ℕ
cache = record {
  head = some 1;
  tail = 2;
  buf = λ i.
      if i == 1
      then buffer 1 5 (some 0) none
      else if i == 0
      then buffer 0 6 (some 2) (some 1)
      else buffer 0 8 none (some 0);
  kerrno = 0;
  hw = 0;
}

cache-IsCache : IsCache cache (1 ∷ 0 ∷ 2 ∷ [])
cache-IsCache = record {
  linked = (refl, (refl, (refl, (refl, (refl, (refl, tt))))));
  distinct = ((omega arith, (omega arith, tt)), ((omega arith, tt), (tt, tt)));
  head = refl;
  tail = refl;
}

bcache_get-miss_example :
    (c' : Bcache ℕ) × (bcache_get drives 9 cache 7 40 ≡ done (some 0, c'))
    × (Given cache (1 ∷ 0 ∷ 2 ∷ []) 7 40 0 c' × ((c'.buf 0).contents ≡ 40 ∷ []) × (c'.hw ≡ 1))
bcache_get-miss_example =
    bcache_get-miss drives 9 7 40 cache (1 ∷ []) 0 (2 ∷ []) (λ block n. (block ∷ [], n + 1))
      cache-IsCache (refl, (refl, (refl, tt))) (refl, tt) refl (omega arith) refl

bcache_release-Moved_example : Moved cache (0 ∷ 2 ∷ []) 1 (bcache_release cache 1)
bcache_release-Moved_example = bcache_release-Moved cache [] 1 0 (2 ∷ []) cache-IsCache refl

-- The buffers from the head on.
abbrev list_from : ℕ → Bcache ℕ → Option ℕ → List ℕ
list_from zero c p = []
list_from (suc k) c none = []
list_from (suc k) c (some i) = i ∷ list_from k c (c.buf i).next

abbrev using : Bcache ℕ → ℕ → Bcache ℕ
using c i = record c { buf = λ j. if j == i then record (c.buf j) { ref_count = 1 } else c.buf j }

-- The buffer 2 at the end is released, then 1, then 2 again: 1 is no longer in the list.
abbrev lossy : Bcache ℕ
lossy =
    let c1 = bcache_release (using cache 2) 2 in
    let c2 = bcache_release c1 1 in bcache_release (using c2 2) 2

lost : list_from 9 cache cache.head ≡ 1 ∷ 0 ∷ 2 ∷ []
lost = refl

lost_after : list_from 9 lossy lossy.head ≡ 0 ∷ 2 ∷ []
unfolding bcache_release
lost_after = refl

-- After `bcache_init` the list has all 30 buffers.
abbrev count : List ℕ → ℕ
count [] = 0
count (i ∷ is) = suc (count is)

all_buffers : count (list_from 40 (bcache_init cache) (bcache_init cache).head) ≡ 30
unfolding bcache_init link_next link_prev
all_buffers = refl
