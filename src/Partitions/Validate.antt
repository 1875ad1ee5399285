-- ===== src/Partitions/Validate.antt =====
-- `gpt_validate_drive` on a drive without a partition table.
use garn_os.Prelude.{
  ℕ, ◌≤◌, ◌≡◌, ◌≢◌, refl, arith, true, false, ◌&&◌, ltb, ◌==◌, inl, inr, Bool-cases, some, List,
  eq_false,
}
use garn_os.Prelude.Exec.{done, fault}
use garn_os.Bcache.{Buf, Bcache, Drives, bcache_get, bcache_release}
use garn_os.Partitions.{
  Drive, drive_type_optical, header_of, looks_valid, string_at, efi_part, gpt_validate_drive,
  gpt_initialise_drive,
}

looks_valid-small : (bytes : List ℕ) → (header_of bytes).entry_size ≤ 512 → looks_valid bytes ≡ true
unfolding looks_valid
looks_valid-small bytes small =
    let low : ltb 512 (header_of bytes).entry_size ≡ false = ground (arith, small) in
    elim (Bool-cases (string_at bytes 0 efi_part)) [
      | inl magic ↦ rw magic refl
      | inr other ↦ rw (other, low) refl
    ]

gpt_initialise_drive-fault :
    {W : Type 0} (drives : Drives W) (behind : Buf → List ℕ) (fuel boot : ℕ) (c c' : Bcache W)
    (d : Drive) (i : ℕ)
    → bcache_get drives fuel c d.number 1 ≡ done (some i, c')
    → (header_of (c'.buf i).contents).entry_size ≡ 0
    → gpt_initialise_drive drives behind fuel c d boot ≡ fault
unfolding gpt_initialise_drive
gpt_initialise_drive-fault drives behind fuel boot c c' d i got size = rw (got, size) refl

-- A drive that is not optical and whose block 1 has the entry size 0, as a drive of zeros does, is
-- taken for a partitioned one, and `gpt_initialise_drive` then divides by 0; the block is read by
-- both functions.
pub gpt_validate_drive-fault :
    {W : Type 0} (drives : Drives W) (behind : Buf → List ℕ) (fuel boot0 boot1 boot : ℕ)
    (c c1 c2 : Bcache W) (d : Drive) (i j : ℕ)
    → d.type ≢ drive_type_optical
    → bcache_get drives fuel c d.number 1 ≡ done (some i, c1)
    → (header_of (c1.buf i).contents).entry_size ≡ 0
    → bcache_get drives fuel (bcache_release c1 i) d.number 1 ≡ done (some j, c2)
    → (header_of (c2.buf j).contents).entry_size ≡ 0
    → (d' : Drive) × (gpt_validate_drive drives fuel c d boot0 boot1
        ≡ done (true, d', bcache_release c1 i))
      × (gpt_initialise_drive drives behind fuel (bcache_release c1 i) d' boot ≡ fault)
unfolding gpt_validate_drive
gpt_validate_drive-fault drives behind fuel boot0 boot1 boot c c1 c2 d i j plain got size again
      size' =
    let magnetic = eq_false d.type drive_type_optical plain in
    let h = header_of (c1.buf i).contents in
    let taken = looks_valid-small (c1.buf i).contents (omega (arith, size)) in
    elim (Bool-cases ((boot0 == h.guid0) && (boot1 == h.guid1))) [
      | inl ours ↦
          let system : Drive = record d { is_system_drive = true } in
          (
            system,
            rw (magnetic, got, taken, ours) refl,
            gpt_initialise_drive-fault drives behind fuel boot (bcache_release c1 i) c2 system j
                again size',
          )
      | inr other ↦ (
        d,
        rw (magnetic, got, taken, other) refl,
        gpt_initialise_drive-fault drives behind fuel boot (bcache_release c1 i) c2 d j again size',
      )
    ]
