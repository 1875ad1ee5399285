-- ===== src/Fat.antt =====
-- modules/fat/fat.c and modules/fat/file.c: the FAT file system, over the buffers of `Bcache`.
-- The chain of clusters is followed through the buffers; `fat_read` reads the sectors of a file from
-- the drive itself. A call of the drive's null pointer is a fault. The loop over the clusters takes
-- fuel, and so do the loops over the buffers.
pub mod Copy
pub mod Read
use garn_os.Prelude.{
  ℕ, zero, suc, ◌+◌, ◌-◌, ◌*◌, ◌/◌, ◌%◌, ◌^◌, Bool, true, false, not, ◌&&◌, ◌||◌, Option, none,
  some, List, [], ◌∷◌, ◌++◌, ltb, leb, ◌==◌, if◌then◌else◌, get_or,
}
use garn_os.Prelude.Words.{word, little_endian}
use garn_os.Prelude.Exec.{Exec, done, fault, spent, ◌>>=◌}
use garn_os.Bcache.{Bcache, Drives, bcache_get, bcache_release}
use garn_os.Files.Vnodes.{negative, einval}

-- What the string `type` of the file system says.
pub data FatType : Type 0 where
  fat12 : FatType
  fat16 : FatType
  fat32 : FatType
  other : FatType

-- The fields of `fat_common_bpb_t` and its successors that `attach` reads.
pub record Bpb : Type 0 where
  pub bytes_per_sector : ℕ
  pub sectors_per_cluster : ℕ
  pub reserved_sector_count : ℕ
  pub fat_count : ℕ
  pub root_entry_count : ℕ
  pub total_sectors16 : ℕ
  pub total_sectors32 : ℕ
  pub fat_size16 : ℕ
  pub fat_size32 : ℕ
  pub root_cluster : ℕ

-- `fat_metadata_t`
pub record Metadata : Type 0 where
  pub bpb : Bpb
  pub sector_count : ℕ
  pub fat_size : ℕ
  pub root_dir_sectors : ℕ
  pub first_data_sector : ℕ
  pub first_fat_sector : ℕ
  pub data_sector_count : ℕ
  pub cluster_count : ℕ

-- The arithmetic of `attach`; a division by 0 stops the kernel.
unfoldable pub read_metadata : Bpb → Exec Metadata
read_metadata b =
    let sector_count = if b.total_sectors16 == 0 then b.total_sectors32 else b.total_sectors16 in
    let fat_size = if b.fat_size16 == 0 then b.fat_size32 else b.fat_size16 in
    let root_dir_sectors =
      (b.root_entry_count * 32 + (b.bytes_per_sector - 1)) / b.bytes_per_sector in
    let before = (b.reserved_sector_count + b.fat_count * fat_size + root_dir_sectors) % 2 ^ 32 in
    let data_sector_count = word (sector_count + 2 ^ 64 - before) in
    if b.bytes_per_sector == 0 || b.sectors_per_cluster == 0
    then fault
    else done (record {
      bpb = b;
      sector_count = sector_count;
      fat_size = fat_size;
      root_dir_sectors = root_dir_sectors;
      first_data_sector = before;
      first_fat_sector = b.reserved_sector_count;
      data_sector_count = data_sector_count;
      cluster_count = data_sector_count / b.sectors_per_cluster;
    })

-- How `attach` tells the types apart.
unfoldable pub fat_type : Metadata → FatType
fat_type m =
    if ltb m.cluster_count 4085 then fat12 else if ltb m.cluster_count 65525 then fat16 else fat32

-- A file on a partition: what `fat_read` finds through the vnode.
pub record FatFile : Type 0 where
  pub type : FatType
  pub drive : ℕ
  pub partition_start : ℕ
  pub metadata : Metadata
  pub first_cluster : ℕ
  pub size : ℕ

-- The variables of `fat_read`; `out` is what was written to the buffer.
pub record Reading : Type 0 where
  pub out : List ℕ
  pub position : ℕ
  pub offset : ℕ
  pub bytes_read : ℕ

-- The loop over `k` in `fat_read`, with `rounds` rounds left.
unfoldable pub copy_sector : ℕ → ℕ → ℕ → ℕ → List ℕ → Reading → Reading
copy_sector file_size size zero k sector s = s
copy_sector file_size size (suc rounds) k sector s =
    let skip =
      copy_sector file_size size rounds (k + 1) sector (record s { position = s.position + 1 }) in
    let s' : Reading = record {
      out = s.out ++ get_or sector k 0 ∷ [];
      position = s.position + 1;
      offset = s.offset + 1;
      bytes_read = s.bytes_read + 1;
    } in
    let next = copy_sector file_size size rounds (k + 1) sector s' in
    if ltb s.position s.offset
    then skip
    else if leb file_size s'.bytes_read || ltb size s'.bytes_read
    then s'
    else next

abbrev pub sector_of : FatFile → ℕ → ℕ
sector_of f cluster = word (
    f.partition_start
    + f.metadata.first_data_sector
    + f.metadata.bpb.sectors_per_cluster * word (cluster + 2 ^ 64 - 2))

module _ {W : Type 0} (drives : Drives W) where
  unfoldable pub fat16_next_cluster : ℕ → FatFile → Bcache W → ℕ → Exec (ℕ × Bcache W)
  fat16_next_cluster fuel f c cluster =
      bcache_get drives fuel c f.drive
        (word (f.partition_start + f.metadata.first_fat_sector + cluster / 256))
      >>= λ r. elim r.0 [
        | none ↦ done (0, r.1)
        | some i ↦
            let c' = bcache_release r.1 i in
            if leb 0xfff6 (little_endian 2 (r.1.buf i).contents (cluster % 256 * 2))
            then done (0, c')
            else done (little_endian 2 (c'.buf i).contents (cluster % 256 * 2), c')
      ]

  -- The bound has one digit less than the end marks of FAT32.
  unfoldable pub fat32_next_cluster : ℕ → FatFile → Bcache W → ℕ → Exec (ℕ × Bcache W)
  fat32_next_cluster fuel f c cluster =
      bcache_get drives fuel c f.drive
        (word (f.partition_start + f.metadata.first_fat_sector + cluster / 128))
      >>= λ r. elim r.0 [
        | none ↦ done (0, r.1)
        | some i ↦
            let c' = bcache_release r.1 i in
            if leb 0x0FFFFF6 (little_endian 4 (r.1.buf i).contents (cluster % 128 * 4))
            then done (0, c')
            else done (little_endian 4 (c'.buf i).contents (cluster % 128 * 4), c')
      ]

  -- The loop over the sectors of a cluster in `fat_read`, from sector `i`, with `k` rounds left.
  unfoldable pub read_sectors : FatFile → ℕ → ℕ → ℕ → Bcache W → Reading → Exec (Reading × Bcache W)
  read_sectors f size zero i c s = done (s, c)
  read_sectors f size (suc k) i c s = elim (drives.read f.drive) [
    | none ↦ fault
    | some read ↦
        let r = read i c.hw in
        read_sectors f size k (i + 1) (record c { hw = r.1 })
          (copy_sector f.size size f.metadata.bpb.bytes_per_sector 0 r.0 s)
  ]

  -- The loop of `fat_read` at `cluster`; `none` is `-EINVAL`. The other types than FAT32 keep the
  -- cluster.
  unfoldable pub read_clusters :
      ℕ → ℕ → FatFile → ℕ → ℕ → Bcache W → Reading → Exec (Option Reading × Bcache W)
  read_clusters fuel zero f size cluster c s = spent
  read_clusters fuel (suc rounds) f size cluster c s =
      let next =
        read_sectors f size f.metadata.bpb.sectors_per_cluster (sector_of f cluster) c s >>= λ r.
        elim f.type [
          | fat12 ↦ read_clusters fuel rounds f size cluster r.1 r.0
          | fat16 ↦ read_clusters fuel rounds f size cluster r.1 r.0
          | fat32 ↦ fat32_next_cluster fuel f r.1 cluster >>= λ n.
              read_clusters fuel rounds f size n.0 n.1 r.0
          | other ↦ done (none, r.1)
        ] in
      if ltb s.bytes_read size && (not (cluster == 0) && not (s.bytes_read == f.size))
      then next
      else done (some s, c)

  -- What is returned, and what was written to the buffer.
  unfoldable pub fat_read : ℕ → ℕ → FatFile → ℕ → ℕ → Bcache W → Exec (ℕ × List ℕ × Bcache W)
  fat_read fuel rounds f size offset c =
      let start : Reading = record { out = []; position = 0; offset = offset; bytes_read = 0 } in
      let read = read_clusters fuel rounds f size f.first_cluster c start >>= λ r. elim r.0 [
        | none ↦ done (negative einval, [], r.1)
        | some s ↦ done (s.bytes_read, s.out, r.1)
      ] in
      if leb f.size offset then done (0, [], c) else read
