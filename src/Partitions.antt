-- ===== src/Partitions.antt =====
-- kernel/sys/dal/stor/part/gpt.c: the partition table of a drive, read through the buffers of
-- `Bcache`. The identifiers that the boot loader passes are arguments. A call of a null pointer and a
-- division by 0 are faults. The loops over the buffers take fuel. An entry that is cut into fewer than
-- 56 bytes is read past the data of its buffer, in the fields that stand behind them in
-- `bcache_buf_t`: how those lie in memory is not in the C code, and is an argument, `behind`.
pub mod Bytes
pub mod Table
pub mod Validate
use garn_os.Prelude.{
  ℕ, zero, suc, ◌+◌, ◌-◌, ◌*◌, ◌/◌, ◌%◌, ◌^◌, Bool, true, false, not, ◌&&◌, ◌||◌, Option, none,
  some, List, [], ◌∷◌, ◌++◌, ltb, ◌==◌, if◌then◌else◌, get_or,
}
use garn_os.Prelude.Words.{word, little_endian}
use garn_os.Prelude.Exec.{Exec, done, fault, ◌>>=◌}
use garn_os.Bcache.{Bcache, Buf, Drives, bcache_get, bcache_release}

abbrev pub max_partitions : ℕ
max_partitions = 128

abbrev pub drive_type_optical : ℕ
drive_type_optical = 2

-- The fields of `gpt_header_t` that are read.
pub record GptHeader : Type 0 where
  pub guid0 : ℕ
  pub guid1 : ℕ
  pub gpt_array_start_lba : ℕ
  pub part_count : ℕ
  pub entry_size : ℕ

unfoldable pub header_of : List ℕ → GptHeader
header_of bytes = record {
  guid0 = little_endian 8 bytes 56;
  guid1 = little_endian 8 bytes 64;
  gpt_array_start_lba = little_endian 8 bytes 72;
  part_count = little_endian 4 bytes 80;
  entry_size = little_endian 4 bytes 84;
}

-- The fields of `gpt_entry_t` that are read.
pub record GptEntry : Type 0 where
  pub type_guid0 : ℕ
  pub type_guid1 : ℕ
  pub part_guid0 : ℕ
  pub start_lba : ℕ
  pub end_lba : ℕ
  pub attribs : ℕ

unfoldable pub entry_of : List ℕ → ℕ → GptEntry
entry_of bytes at = record {
  type_guid0 = little_endian 8 bytes at;
  type_guid1 = little_endian 8 bytes (at + 8);
  part_guid0 = little_endian 8 bytes (at + 16);
  start_lba = little_endian 8 bytes (at + 32);
  end_lba = little_endian 8 bytes (at + 40);
  attribs = little_endian 8 bytes (at + 48);
}

-- `partition_t`
pub record Partition : Type 0 where
  pub start_lba : ℕ
  pub end_lba : ℕ
  pub attribs : ℕ
  pub is_system_partition : Bool
  pub size : ℕ
  pub valid : Bool

-- The fields of `drive_t` that are used; `number` stands for its address.
pub record Drive : Type 0 where
  pub number : ℕ
  pub type : ℕ
  pub is_system_drive : Bool
  pub partition_count : ℕ
  pub partitions : ℕ → Partition

-- Whether the bytes from `i` on are the string, with its zero byte.
abbrev pub string_at : List ℕ → ℕ → List ℕ → Bool
string_at bytes i [] = get_or bytes i 0 == 0
string_at bytes i (c ∷ s) = (get_or bytes i 0 == c) && string_at bytes (i + 1) s

-- "EFI PART"
abbrev pub efi_part : List ℕ
efi_part = 69 ∷ 70 ∷ 73 ∷ 32 ∷ 80 ∷ 65 ∷ 82 ∷ 84 ∷ []

-- The test of `gpt_validate_drive`.
unfoldable pub looks_valid : List ℕ → Bool
looks_valid bytes =
    let h = header_of bytes in
    string_at bytes 0 efi_part
    || (not (ltb 512 h.entry_size)
        || (not (h.entry_size % 128 == 0) || ltb max_partitions h.part_count))

-- The first slot from `i` on that is not valid, with `k` rounds left.
unfoldable pub find_slot : ℕ → ℕ → (ℕ → Partition) → Option ℕ
find_slot zero i ps = none
find_slot (suc k) i ps =
    let rest = find_slot k (i + 1) ps in if not (ps i).valid then some i else rest

abbrev pub put_partition : (ℕ → Partition) → ℕ → Partition → ℕ → Partition
put_partition ps i p j = if j == i then p else ps j

-- A used entry of the table is counted, and goes into the first free slot.
unfoldable pub add_entry : ℕ → Drive → GptEntry → Drive
add_entry boot d e =
    let d1 = record d { partition_count = word (d.partition_count + 1) } in
    elim (find_slot max_partitions 0 d.partitions) [
      | none ↦ d1
      | some i ↦ record d1 {
        partitions = put_partition d.partitions i (record {
          start_lba = e.start_lba;
          end_lba = e.end_lba;
          attribs = e.attribs;
          is_system_partition =
              (e.part_guid0 == boot) && d.is_system_drive || (d.partitions i).is_system_partition;
          size = word (word (e.end_lba + 2 ^ 64 - e.start_lba) * 512);
          valid = true;
        });
      }
    ]

abbrev pub is_used : GptEntry → Bool
is_used e = not (e.type_guid0 == 0) && not (e.type_guid1 == 0)

-- The loop over the entries of a block from entry `j`, with `k` rounds left.
unfoldable pub scan_block : ℕ → ℕ → ℕ → ℕ → List ℕ → Drive → Drive
scan_block boot entry_size zero j bytes d = d
scan_block boot entry_size (suc k) j bytes d =
    let e = entry_of bytes (j * entry_size) in
    scan_block boot entry_size k (j + 1) bytes (if is_used e then add_entry boot d e else d)

module _ {W : Type 0} (drives : Drives W) where
  unfoldable pub gpt_validate_drive : ℕ → Bcache W → Drive → ℕ → ℕ → Exec (Bool × Drive × Bcache W)
  gpt_validate_drive fuel c d boot0 boot1 =
      if d.type == drive_type_optical
      then done (false, d, c)
      else bcache_get drives fuel c d.number 1 >>= λ r. elim r.0 [
        | none ↦ done (false, d, r.1)
        | some i ↦
            let bytes = (r.1.buf i).contents in
            let h = header_of bytes in
            let ours = (boot0 == h.guid0) && (boot1 == h.guid1) in
            if looks_valid bytes
            then done (
              true,
              (if ours then record d { is_system_drive = true } else d),
              bcache_release r.1 i,
            )
            else done (false, d, bcache_release r.1 i)
      ]

-- `behind` gives the bytes that stand behind the data of a buffer: its block, drive, links and lock.
module _ {W : Type 0} (drives : Drives W) (behind : Buf → List ℕ) where
  -- The loop over the blocks of the table from block `lba`, with `k` rounds left.
  unfoldable pub scan_table : ℕ → ℕ → ℕ → ℕ → ℕ → Bcache W → Drive → Exec (Drive × Bcache W)
  scan_table fuel boot entry_size zero lba c d = done (d, c)
  scan_table fuel boot entry_size (suc k) lba c d = bcache_get drives fuel c d.number lba >>= λ r.
      elim r.0 [
        | none ↦ fault
        | some i ↦ scan_table fuel boot entry_size k (word (lba + 1)) (bcache_release r.1 i) (
            scan_block boot entry_size (512 / entry_size) 0
              ((r.1.buf i).contents ++ behind (r.1.buf i)) d)
      ]

  unfoldable pub gpt_initialise_drive : ℕ → Bcache W → Drive → ℕ → Exec (Drive × Bcache W)
  gpt_initialise_drive fuel c d boot = bcache_get drives fuel c d.number 1 >>= λ r. elim r.0 [
    | none ↦ fault
    | some i ↦
        let h = header_of (r.1.buf i).contents in
        let start = if h.gpt_array_start_lba == 0 then 2 else h.gpt_array_start_lba in
        if h.entry_size == 0 || ltb 512 h.entry_size
        then fault
        else scan_table fuel boot h.entry_size (h.part_count / (512 / h.entry_size)) start
            (bcache_release r.1 i) d
  ]
