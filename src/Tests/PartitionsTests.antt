-- ===== src/Tests/PartitionsTests.antt =====
-- A drive 7 with a table of two entries in block 2, of which the second is used, and a drive 8 of
-- zeros.
use garn_os.Prelude.{
  ℕ, ◌≡◌, refl, arith, true, false, Option, none, some, List, [], ◌∷◌, ◌++◌, ◌==◌, if◌then◌else◌,
  replicate,
}
use garn_os.Prelude.Words.{little_endian}
use garn_os.Prelude.Exec.{Exec, done, fault, spent}
use garn_os.Bcache.{
  Buf, Bcache, Drives, bcache_get, bcache_release, bcache_read, load_buf, find_buf,
}
use garn_os.Partitions.{
  GptHeader, GptEntry, Partition, Drive, header_of, entry_of, gpt_validate_drive,
  gpt_initialise_drive,
}
use garn_os.Partitions.Table.{
  TableAt, finish, block, HasPartitions, gpt_initialise_drive-HasPartitions,
}
use garn_os.Partitions.Validate.{gpt_validate_drive-fault}

abbrev zeros : ℕ → List ℕ
zeros n = replicate n 0

-- The table begins at block 2, with 2 entries of 256 bytes.
abbrev header : List ℕ
header = zeros 72 ++ 2 ∷ zeros 7 ++ 2 ∷ zeros 4 ++ 1 ∷ zeros 426

-- The second entry is of a partition from block 40 to 99.
abbrev table : List ℕ
table = zeros 256 ++ 1 ∷ zeros 7 ++ 1 ∷ zeros 23 ++ 40 ∷ zeros 7 ++ 99 ∷ zeros 215

abbrev drives : Drives ℕ
drives = record {
  read = λ d.
      if d == 7
      then some (λ b n. ((if b == 1 then header else if b == 2 then table else []), n))
      else some (λ b n. ([], n));
  write = λ d. none;
}

abbrev buffer : Option ℕ → Option ℕ → Buf
buffer next prev = record {
  valid = false;
  dirty = false;
  ref_count = 0;
  contents = [];
  block = 0;
  drive = 0;
  next = next;
  prev = prev;
}

abbrev cache : Bcache ℕ
cache = record {
  head = some 0;
  tail = 1;
  buf = λ i. if i == 0 then buffer (some 1) none else buffer none (some 0);
  kerrno = 0;
  hw = 0;
}

abbrev cache_of : Exec (Option ℕ × Bcache ℕ) → Bcache ℕ
cache_of (done r) = r.1
cache_of fault = cache
cache_of spent = cache

-- The bytes behind the data of a buffer, of which the first eight are its block.
abbrev behind : Buf → List ℕ
behind b = b.block ∷ zeros 54

-- The cache after the first read.
unfoldable header_read : ℕ → Bcache ℕ
header_read d = cache_of (bcache_get drives 9 cache d 1)

-- The same block of the other drive is read again.
unfoldable read_again : Bcache ℕ
read_again = cache_of (bcache_get drives 9 (bcache_release (header_read 8) 0) 8 1)

abbrev no_partition : Partition
no_partition = record {
  start_lba = 0;
  end_lba = 0;
  attribs = 0;
  is_system_partition = false;
  size = 0;
  valid = false;
}

abbrev drive : ℕ → Drive
drive n = record {
  number = n;
  type = 1;
  is_system_drive = false;
  partition_count = 0;
  partitions = λ i. no_partition;
}

abbrev entry : GptEntry
entry = record {
  type_guid0 = 1;
  type_guid1 = 1;
  part_guid0 = 0;
  start_lba = 40;
  end_lba = 99;
  attribs = 0;
}

abbrev gpt_header : GptHeader
gpt_header = record {
  guid0 = 0;
  guid1 = 0;
  gpt_array_start_lba = 2;
  part_count = 2;
  entry_size = 256;
}

got_header : bcache_get drives 9 cache 7 1 ≡ done (some 0, header_read 7)
unfolding header_read bcache_get bcache_read load_buf find_buf
got_header = refl

is_header : header_of ((header_read 7).buf 0).contents ≡ gpt_header
unfolding header_read bcache_get bcache_read load_buf find_buf header_of little_endian
is_header = refl

table_blocks : TableAt drives 9 7 256 1 2 (bcache_release (header_read 7) 0) (entry ∷ [])
unfolding header_read bcache_get bcache_release bcache_read load_buf find_buf entry_of little_endian
table_blocks = block refl refl finish

gpt_initialise_drive-HasPartitions_example :
    (d : Drive) × (c : Bcache ℕ) × (gpt_initialise_drive drives behind 9 cache (drive 7) 5
      ≡ done (d, c))
    × HasPartitions d (entry ∷ [])
gpt_initialise_drive-HasPartitions_example =
    gpt_initialise_drive-HasPartitions drives behind 9 5 cache (header_read 7) (drive 7) 0
      gpt_header (entry ∷ []) got_header is_header (omega arith) (omega arith) table_blocks
      (record { slots = λ j l. refl; count = refl }) (omega arith)

got_zeros : bcache_get drives 9 cache 8 1 ≡ done (some 0, header_read 8)
unfolding header_read bcache_get bcache_read load_buf find_buf
got_zeros = refl

zero_size : (header_of ((header_read 8).buf 0).contents).entry_size ≡ 0
unfolding header_read bcache_get bcache_read load_buf find_buf header_of little_endian
zero_size = refl

got_again : bcache_get drives 9 (bcache_release (header_read 8) 0) 8 1 ≡ done (some 1, read_again)
unfolding read_again header_read bcache_get bcache_release bcache_read load_buf find_buf
got_again = refl

zero_size_again : (header_of (read_again.buf 1).contents).entry_size ≡ 0
unfolding read_again header_read bcache_get bcache_release bcache_read load_buf find_buf header_of
    little_endian
zero_size_again = refl

gpt_validate_drive-fault_example :
    (d : Drive) × (gpt_validate_drive drives 9 cache (drive 8) 1 2
      ≡ done (true, d, bcache_release (header_read 8) 0))
    × (gpt_initialise_drive drives behind 9 (bcache_release (header_read 8) 0) d 5 ≡ fault)
gpt_validate_drive-fault_example =
    gpt_validate_drive-fault drives behind 9 1 2 5 cache (header_read 8) read_again (drive 8) 0 1
      (omega arith) got_zeros zero_size got_again zero_size_again

-- Entry 15 of entries of 32 bytes begins behind byte 479: its first block is read from the block of
-- the buffer.
past_the_data :
    (entry_of (zeros 512 ++ behind (record (buffer none none) { block = 5 })) 480).start_lba ≡ 5
unfolding entry_of little_endian
past_the_data = refl
