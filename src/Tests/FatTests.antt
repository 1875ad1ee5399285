-- ===== src/Tests/FatTests.antt =====
-- A FAT32 drive with sectors of 16 bytes and clusters of 2 sectors: a file has the clusters 2 and 3.
use garn_os.Prelude.{
  ℕ, ◌≡◌, refl, arith, false, Option, none, some, List, [], ◌∷◌, ◌++◌, ◌==◌, if◌then◌else◌,
  replicate, length, length-replicate, inl, inr, Bool-cases,
}
use garn_os.Prelude.Words.{little_endian}
use garn_os.Prelude.Exec.{Exec, done, fault, spent}
use garn_os.Bcache.{
  Buf, Bcache, Drives, bcache_get, bcache_release, bcache_read, load_buf, find_buf,
}
use garn_os.Fat.{
  fat32, Bpb, Metadata, FatFile, read_metadata, fat_type, copy_sector, read_sectors, read_clusters,
  fat32_next_cluster, fat_read,
}
use garn_os.Fat.Read.{ClusterChain, finish, follow, Reads, sectors, fat_read-Reads}

-- The entries of the clusters 0 to 3, in sector 1.
abbrev table : List ℕ
table =
    0xf8 ∷ 0xff ∷ 0xff ∷ 0x0f ∷ 0xff ∷ 0xff ∷ 0xff ∷ 0x0f ∷ 3 ∷ 0 ∷ 0 ∷ 0 ∷ 0xff ∷ 0xff ∷ 0xff
    ∷ 0x0f ∷ []

abbrev disk : ℕ → List ℕ
disk b = if b == 1 then table else replicate 16 b

abbrev read : ℕ → ℕ → List ℕ × ℕ
read b n = (disk b, n)

abbrev drives : Drives ℕ
drives = record { read = λ d. if d == 7 then some read else none; write = λ d. none }

disk-length : (b : ℕ) → length (disk b) ≡ 16
disk-length b = elim (Bool-cases (b == 1)) [
  | inl e ↦ rw e refl
  | inr e ↦ rw e (length-replicate 16 b)
]

abbrev bpb : Bpb
bpb = record {
  bytes_per_sector = 16;
  sectors_per_cluster = 2;
  reserved_sector_count = 1;
  fat_count = 1;
  root_entry_count = 0;
  total_sectors16 = 0;
  total_sectors32 = 200000;
  fat_size16 = 0;
  fat_size32 = 9;
  root_cluster = 2;
}

abbrev metadata : Metadata
metadata = record {
  bpb = bpb;
  sector_count = 200000;
  fat_size = 9;
  root_dir_sectors = 0;
  first_data_sector = 10;
  first_fat_sector = 1;
  data_sector_count = 199990;
  cluster_count = 99995;
}

read_bpb : read_metadata bpb ≡ done metadata
unfolding read_metadata
read_bpb = refl

metadata_type : fat_type metadata ≡ fat32
unfolding fat_type
metadata_type = refl

abbrev file : ℕ → FatFile
file size = record {
  type = fat32;
  drive = 7;
  partition_start = 0;
  metadata = metadata;
  first_cluster = 2;
  size = size;
}

abbrev buffer : Option ℕ → Option ℕ → Buf
buffer next prev = record {
  valid = false;
  dirty = false;
  ref_count = 0;
  contents = [];
  block = 0;
  drive = 0;
  next = next;
  prev = prev;
}

abbrev cache : Bcache ℕ
cache = record {
  head = some 0;
  tail = 1;
  buf = λ i. if i == 0 then buffer (some 1) none else buffer none (some 0);
  kerrno = 0;
  hw = 0;
}

abbrev content : List ℕ
content = sectors disk 2 10 ++ (sectors disk 2 12 ++ [])

chain : ClusterChain drives 9 (file 60) disk 2 cache content 2
unfolding fat32_next_cluster bcache_get bcache_release bcache_read load_buf find_buf little_endian
chain = follow (omega arith) refl (follow (omega arith) refl finish)

-- Across the two clusters.
fat_read-Reads_example : Reads 25 30 content (fat_read drives 9 3 (file 60) 30 25 cache)
fat_read-Reads_example =
    fat_read-Reads drives 9 3 2 (file 60) disk read content cache 30 25 30 refl (λ b w. refl)
      disk-length refl chain (omega arith) (omega arith) (omega arith) (omega arith)

abbrev returned : Exec (ℕ × List ℕ × Bcache ℕ) → ℕ
returned (done r) = r.0
returned fault = 999
returned spent = 998

-- Asked for 4 bytes, the function writes 6, one more in each sector that is left.
overrun : returned (fat_read drives 9 3 (file 60) 4 0 cache) ≡ 6
unfolding fat_read read_clusters read_sectors copy_sector fat32_next_cluster bcache_get
    bcache_release bcache_read load_buf find_buf little_endian
overrun = refl

-- Of a file of 2 bytes, 5 are returned: 2 and 1 of the first cluster, and then the next one is read.
overrun_file : returned (fat_read drives 9 3 (file 2) 9 0 cache) ≡ 5
unfolding fat_read read_clusters read_sectors copy_sector fat32_next_cluster bcache_get
    bcache_release bcache_read load_buf find_buf little_endian
overrun_file = refl
