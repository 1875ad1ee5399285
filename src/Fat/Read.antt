-- ===== src/Fat/Read.antt =====
-- `fat_read` of a FAT32 file, whose clusters the file allocation table chains.
use garn_os.Prelude.{
  ℕ, zero, suc, ◌+◌, ◌≤◌, ◌<◌, ◌≡◌, ◌≢◌, refl, sym, ap, ◌∙◌, subst, arith, Bool, true, false, ◌&&◌,
  not, some, List, [], ◌++◌, append_assoc, append-nil, leb, ltb, ◌==◌, take, drop, drop_all, length,
  length-append, length-drop, inl, inr, Bool-cases,
}
use garn_os.Prelude.Exec.{Exec, done}
use garn_os.Bcache.{Bcache, Drives}
use garn_os.Fat.{
  FatFile, fat32, Reading, copy_sector, sector_of, fat32_next_cluster, read_sectors, read_clusters,
  fat_read,
}
use garn_os.Fat.Copy.{Along, Full, Progress, Along-Full, copy_sector-Full, copy_sector-Progress}

-- The bytes of `k` sectors from sector `i` on.
abbrev pub sectors : (ℕ → List ℕ) → ℕ → ℕ → List ℕ
sectors disk zero i = []
sectors disk (suc k) i = disk i ++ sectors disk k (i + 1)

-- From the cluster on, the table chains `n` clusters with the given bytes.
pub data ClusterChain {W : Type 0} (drives : Drives W) (fuel : ℕ) (f : FatFile) (disk : ℕ → List ℕ)
    : ℕ → Bcache W → List ℕ → ℕ → Type 0 where
  finish : {c : Bcache W} → ClusterChain drives fuel f disk 0 c [] 0
  follow :
      {cluster next n : ℕ} {c c' : Bcache W} {rest : List ℕ}
      → cluster ≢ 0
      → fat32_next_cluster drives fuel f c cluster ≡ done (next, c')
      → ClusterChain drives fuel f disk next c' rest n
      → ClusterChain drives fuel f disk cluster c
          (sectors disk f.metadata.bpb.sectors_per_cluster (sector_of f cluster) ++ rest)
          (suc n)

-- The read ends, and the first `wanted` bytes of the buffer are those of `all` from `offset` on.
abbrev pub Reads : {W : Type 0} → ℕ → ℕ → List ℕ → Exec (ℕ × List ℕ × Bcache W) → Type 0
Reads {W = W} offset wanted all x =
    (out : List ℕ) × (c : Bcache W) × (x ≡ done (length out, out, c))
    × (wanted ≤ length out)
    × (take wanted out ≡ take wanted (drop offset all))

module _ {W : Type 0} (drives : Drives W) (fuel : ℕ) (f : FatFile) (disk : ℕ → List ℕ)
    (read : ℕ → W → List ℕ × W) (driver : drives.read f.drive ≡ some read)
    (reads : (b : ℕ) (w : W) → read b w ≡ (disk b, w))
    (sized : (b : ℕ) → length (disk b) ≡ f.metadata.bpb.bytes_per_sector) (size offset wanted : ℕ)
    (all : List ℕ) (small : wanted ≤ f.size) (asked : wanted ≤ size) where
  sector-Progress :
      (i : ℕ) (seen rest : List ℕ) (s : Reading)
      → all ≡ (seen ++ disk i) ++ rest
      → Progress offset wanted all seen s
      → Progress offset wanted all
          (seen ++ disk i)
          (copy_sector f.size size f.metadata.bpb.bytes_per_sector 0 (disk i) s)
  sector-Progress i seen rest s e (inl a) = rw e (
      copy_sector-Progress f.size size offset wanted small asked f.metadata.bpb.bytes_per_sector 0
        (disk i) (disk i) seen rest s refl (sized i) a)
  sector-Progress i seen rest s e (inr full) = inr (
      copy_sector-Full f.size size offset wanted small asked f.metadata.bpb.bytes_per_sector 0
        (disk i) all s full)

  read_sectors-read :
      (k i : ℕ) (c : Bcache W) (s : Reading)
      → read_sectors drives f size (suc k) i c s
        ≡ read_sectors drives f size k
            (i + 1)
            c
            (copy_sector f.size size f.metadata.bpb.bytes_per_sector 0 (disk i) s)
  unfolding read_sectors
  read_sectors-read k i c s = rw (read_sectors, driver, reads i c.hw) refl

  read_sectors-Progress :
      (k i : ℕ) (seen rest : List ℕ) (c : Bcache W) (s : Reading)
      → all ≡ (seen ++ sectors disk k i) ++ rest
      → Progress offset wanted all seen s
      → (s' : Reading) × (read_sectors drives f size k i c s ≡ done (s', c))
        × Progress offset wanted all (seen ++ sectors disk k i) s'
  unfolding read_sectors
  read_sectors-Progress zero i seen rest c s e p =
      (s, refl, subst (λ l. Progress offset wanted all l s) (sym (append-nil seen)) p)
  read_sectors-Progress (suc k) i seen rest c s e p =
      let r = append_assoc seen (disk i) (sectors disk k (i + 1)) in
      let s1 = copy_sector f.size size f.metadata.bpb.bytes_per_sector 0 (disk i) s in
      let e1 : all ≡ ((seen ++ disk i) ++ sectors disk k (i + 1)) ++ rest =
        e ∙ ap (λ l. l ++ rest) (sym r) in
      let next = read_sectors-Progress k (i + 1) (seen ++ disk i) rest c s1 e1 (
        sector-Progress i seen (sectors disk k (i + 1) ++ rest) s
          (e1 ∙ append_assoc (seen ++ disk i) (sectors disk k (i + 1)) rest) p) in
      (
        next.0,
        read_sectors-read k i c s ∙ next.1,
        subst (λ l. Progress offset wanted all l next.0) r next.2,
      )

  -- The test of the loop over the clusters.
  abbrev goes_on : ℕ → Reading → Bool
  goes_on cluster s = ltb s.bytes_read size && (not (cluster == 0) && not (s.bytes_read == f.size))

  read_clusters-stop :
      (rounds cluster : ℕ) (c : Bcache W) (s : Reading)
      → goes_on cluster s ≡ false
      → read_clusters drives fuel (suc rounds) f size cluster c s ≡ done (some s, c)
  unfolding read_clusters
  read_clusters-stop rounds cluster c s stop = rw stop refl

  read_clusters-follow :
      (rounds cluster next : ℕ) (c c' : Bcache W) (s s' : Reading)
      → goes_on cluster s ≡ true
      → f.type ≡ fat32
      → read_sectors drives f size f.metadata.bpb.sectors_per_cluster (sector_of f cluster) c s
        ≡ done (s', c)
      → fat32_next_cluster drives fuel f c cluster ≡ done (next, c')
      → read_clusters drives fuel (suc rounds) f size cluster c s
        ≡ read_clusters drives fuel rounds f size next c' s'
  unfolding read_clusters
  read_clusters-follow rounds cluster next c c' s s' on type here step =
      rw (on, here) (simp (type, step))

  -- When the loop ends before the chain does, enough was copied.
  Progress-stop :
      (cluster : ℕ) (seen rest : List ℕ) (s : Reading)
      → cluster ≢ 0
      → all ≡ seen ++ rest
      → Progress offset wanted all seen s
      → goes_on cluster s ≡ false
      → Full offset wanted all s
  Progress-stop cluster seen rest s nonzero e (inl a) stop =
      subst (λ l. Full offset wanted l s) (sym e)
        (Along-Full offset wanted seen rest s a (ground (arith, a.counted, stop, nonzero)))
  Progress-stop cluster seen rest s nonzero e (inr full) stop = full

  -- At the end of the chain all bytes were passed.
  Progress-end :
      (seen : List ℕ) (s : Reading)
      → all ≡ seen ++ []
      → offset + wanted ≤ length all
      → Progress offset wanted all seen s
      → Full offset wanted all s
  Progress-end seen s e room (inl a) =
      subst (λ l. Full offset wanted l s) (sym e)
        (Along-Full offset wanted seen [] s a (
          omega (
            arith,
            ap length a.copied,
            length-drop offset seen,
            length-append seen [],
            ap length e,
          )))
  Progress-end seen s e room (inr full) = full

  read_clusters-Full :
      (cluster n rounds : ℕ) (c : Bcache W) (seen rest : List ℕ) (s : Reading)
      → ClusterChain drives fuel f disk cluster c rest n
      → n < rounds
      → f.type ≡ fat32
      → all ≡ seen ++ rest
      → offset + wanted ≤ length all
      → Progress offset wanted all seen s
      → (s' : Reading) × (c' : Bcache W) × (read_clusters drives fuel rounds f size cluster c s
          ≡ done (some s', c'))
        × Full offset wanted all s'
  read_clusters-Full cluster n zero c seen rest s chain lt type e room p = absurd (omega arith)
  read_clusters-Full cluster n (suc rounds) c seen rest s finish lt type e room p =
      (s, c, read_clusters-stop rounds 0 c s (ground arith), Progress-end seen s e room p)
  read_clusters-Full cluster n (suc rounds) c seen rest s
        (follow {next = next} {n = n'} {c' = c1} {rest = rest'} nonzero step chain) lt type e room
        p =
      elim (Bool-cases (goes_on cluster s)) [
        | inl on ↦
            let k = f.metadata.bpb.sectors_per_cluster in
            let i = sector_of f cluster in
            let e1 = e ∙ sym (append_assoc seen (sectors disk k i) rest') in
            let here = read_sectors-Progress k i seen rest' c s e1 p in
            let ih =
              read_clusters-Full next n' rounds c1 (seen ++ sectors disk k i) rest' here.0 chain
                (omega arith) type e1 room here.2 in
            (
              ih.0,
              ih.1,
              read_clusters-follow rounds cluster next c c1 s here.0 on type here.1 step ∙ ih.2,
              ih.3,
            )
        | inr stop ↦ (
          s,
          c,
          read_clusters-stop rounds cluster c s stop,
          Progress-stop cluster seen
              (sectors disk f.metadata.bpb.sectors_per_cluster (sector_of f cluster) ++ rest') s
              nonzero e p stop,
        )
      ]

-- On a FAT32 drive whose sectors read as `disk`, if the table chains the clusters of a file, and
-- the drive has the bytes of the file, `fat_read` ends when the loop may go round once more than
-- there are clusters, returns the number of bytes it wrote, and the first `wanted` of them are those
-- of the clusters from `offset` on; `wanted` is any number within the size asked for and what the
-- file has after `offset`.
pub fat_read-Reads :
    {W : Type 0} (drives : Drives W) (fuel rounds n : ℕ) (f : FatFile) (disk : ℕ → List ℕ)
    (read : ℕ → W → List ℕ × W) (all : List ℕ) (c : Bcache W) (size offset wanted : ℕ)
    → drives.read f.drive ≡ some read
    → ((b : ℕ) (w : W) → read b w ≡ (disk b, w))
    → ((b : ℕ) → length (disk b) ≡ f.metadata.bpb.bytes_per_sector)
    → f.type ≡ fat32
    → ClusterChain drives fuel f disk f.first_cluster c all n
    → n < rounds
    → f.size ≤ length all
    → wanted ≤ size
    → offset + wanted ≤ f.size
    → Reads offset wanted all (fat_read drives fuel rounds f size offset c)
unfolding fat_read
fat_read-Reads drives fuel rounds n f disk read all c size offset wanted driver reads sized type
      chain lt holds asked room =
    elim (Bool-cases (leb f.size offset)) [
      | inl beyond ↦
          let none_wanted : wanted ≡ 0 = ground (arith, beyond) in
          ([], c, rw beyond refl, omega arith, rw none_wanted refl)
      | inr within ↦
          let start : Reading = record {
            out = [];
            position = 0;
            offset = offset;
            bytes_read = 0;
          } in
          let begin : Along offset [] start = record {
            position = refl;
            moved = omega arith;
            counted = refl;
            copied = sym (drop_all offset [] (omega arith));
          } in
          let r =
            read_clusters-Full drives fuel f disk read driver reads sized size offset wanted all
              (omega arith) asked f.first_cluster n rounds c [] all start chain lt type refl
              (omega arith) (inl begin) in
          let s = r.0 in
          let full = r.3 in
          (s.out, r.1, rw (within, r.2) (rw full.counted refl), full.enough, full.right)
    ]
