-- ===== src/Partitions/Table.antt =====
-- `gpt_initialise_drive` fills the slots of a drive with the used entries of the table, in order.
use garn_os.Prelude.{
  ℕ, zero, suc, ◌+◌, ◌*◌, ◌/◌, ◌≤◌, ◌<◌, ◌≡◌, refl, sym, ap, ◌∙◌, subst, arith, Bool, true, false,
  ◌||◌, ltb, ◌==◌, if◌then◌else◌, inl, inr, Bool-cases, some, List, [], ◌∷◌, ◌++◌, append_assoc,
  append-nil, length, length-append,
}
use garn_os.Prelude.Words.{word}
use garn_os.Prelude.Exec.{done}
use garn_os.Bcache.{Buf, Bcache, Drives, bcache_get, bcache_release}
use garn_os.Partitions.Bytes.{scan_block-append, blocks_fit}
use garn_os.Partitions.{
  GptHeader, GptEntry, Partition, Drive, header_of, entry_of, find_slot, put_partition, add_entry,
  is_used, scan_block, scan_table, gpt_initialise_drive, max_partitions,
}

-- The used entries of a block, from entry `j` on.
abbrev pub used_in : ℕ → ℕ → ℕ → List ℕ → List GptEntry
used_in size zero j bytes = []
used_in size (suc k) j bytes =
    let e = entry_of bytes (j * size) in
    let rest = used_in size k (j + 1) bytes in if is_used e then e ∷ rest else rest

-- The slot holds the entry.
pub record Holds (p : Partition) (e : GptEntry) : Type 0 where
  pub valid : p.valid ≡ true
  pub start_lba : p.start_lba ≡ e.start_lba
  pub end_lba : p.end_lba ≡ e.end_lba
  pub attribs : p.attribs ≡ e.attribs

-- From slot `i` on the entries stand one after another, and behind them no slot is valid.
abbrev pub Slots : (ℕ → Partition) → ℕ → List GptEntry → Type 0
Slots ps i [] = (j : ℕ) → i ≤ j → (ps j).valid ≡ false
Slots ps i (e ∷ es) = Holds (ps i) e × Slots ps (i + 1) es

find_slot-length :
    (k i : ℕ) (ps : ℕ → Partition) (es : List GptEntry)
    → Slots ps i es
    → length es < k
    → find_slot k i ps ≡ some (i + length es)
unfolding find_slot
find_slot-length zero i ps es h room = absurd (omega arith)
find_slot-length (suc k) i ps [] h room = rw (h i (omega arith)) (ap some (omega arith))
find_slot-length (suc k) i ps (e ∷ es) h room =
    let rest = find_slot-length k (i + 1) ps es h.1 (omega arith) in
    rw h.0.valid (rest ∙ ap some (omega arith))

Slots-put :
    (ps : ℕ → Partition) (p : Partition) (i : ℕ) (es : List GptEntry) (e : GptEntry)
    → Slots ps i es
    → Holds p e
    → Slots (put_partition ps (i + length es) p) i (es ++ e ∷ [])
Slots-put ps p i [] e h new =
    let here : (i == i + 0) ≡ true = ground arith in
    (
      rw here new,
      λ j l. let other : (j == i + 0) ≡ false = ground arith in rw other (h j (omega arith)),
    )
Slots-put ps p i (x ∷ es) e h new =
    let other : (i == i + suc (length es)) ≡ false = ground arith in
    let step : i + 1 + length es ≡ i + suc (length es) = omega arith in
    (
      rw other h.0,
      subst (λ n. Slots (put_partition ps n p) (i + 1) (es ++ e ∷ [])) step
          (Slots-put ps p (i + 1) es e h.1 new),
    )

-- The drive has the partitions of the entries.
pub record HasPartitions (d : Drive) (es : List GptEntry) : Type 0 where
  pub slots : Slots d.partitions 0 es
  pub count : d.partition_count ≡ length es

add_entry-HasPartitions :
    (boot : ℕ) (d : Drive) (e : GptEntry) (es : List GptEntry)
    → HasPartitions d es
    → length es < max_partitions
    → HasPartitions (add_entry boot d e) (es ++ e ∷ []) × ((add_entry boot d e).number ≡ d.number)
unfolding add_entry
add_entry-HasPartitions boot d e es h room =
    let slot = find_slot-length max_partitions 0 d.partitions es h.slots room in
    let longer = length-append es (e ∷ []) in
    rw (add_entry, slot)
      (
        record {
          slots =
              Slots-put d.partitions _ 0 es e h.slots
                (record { valid = refl; start_lba = refl; end_lba = refl; attribs = refl });
          count = omega (arith, h.count);
        },
        refl,
      )

-- The drive `d'` is `d` with the partitions.
abbrev Filled : Drive → List GptEntry → Drive → Type 0
Filled d es d' = HasPartitions d' es × (d'.number ≡ d.number)

scan_block-step :
    (boot size k j : ℕ) (bytes : List ℕ) (d : Drive) (b : Bool)
    → is_used (entry_of bytes (j * size)) ≡ b
    → scan_block boot size (suc k) j bytes d
      ≡ scan_block boot size k
          (j + 1)
          bytes
          (if b then add_entry boot d (entry_of bytes (j * size)) else d)
unfolding scan_block
scan_block-step boot size k j bytes d b e =
    ap
      (λ b.
        scan_block boot size k (j + 1) bytes
          (if b then add_entry boot d (entry_of bytes (j * size)) else d))
      e

scan_block-Filled :
    (boot size k j : ℕ) (bytes : List ℕ) (d : Drive) (es : List GptEntry)
    → HasPartitions d es
    → length (es ++ used_in size k j bytes) ≤ max_partitions
    → Filled d (es ++ used_in size k j bytes) (scan_block boot size k j bytes d)
unfolding scan_block
scan_block-Filled boot size zero j bytes d es h room =
    (subst (HasPartitions d) (sym (append-nil es)) h, refl)
scan_block-Filled boot size (suc k) j bytes d es h room =
    let e = entry_of bytes (j * size) in
    let rest = used_in size k (j + 1) bytes in
    elim (Bool-cases (is_used e)) [
      | inl used ↦
          let e_rest : used_in size (suc k) j bytes ≡ e ∷ rest = rw used refl in
          let joined : (es ++ e ∷ []) ++ rest ≡ es ++ e ∷ rest = append_assoc es (e ∷ []) rest in
          let n : length es < max_partitions =
            omega (arith, room, ap (λ l. length (es ++ l)) e_rest, length-append es (e ∷ rest)) in
          let added = add_entry-HasPartitions boot d e es h n in
          let r =
            scan_block-Filled boot size k (j + 1) bytes (add_entry boot d e) (es ++ e ∷ []) added.0
              (omega (arith, room, ap (λ l. length (es ++ l)) e_rest, ap length joined)) in
          let r' : Filled d (es ++ e ∷ rest)
              (scan_block boot size k (j + 1) bytes (add_entry boot d e)) =
            (
              subst (HasPartitions (scan_block boot size k (j + 1) bytes (add_entry boot d e)))
                  joined r.0,
              r.1 ∙ added.1,
            ) in
          subst (λ l. Filled d (es ++ l) (scan_block boot size (suc k) j bytes d)) (sym e_rest)
            (subst (Filled d (es ++ e ∷ rest))
              (sym (scan_block-step boot size k j bytes d true used)) r')
      | inr unused ↦
          let e_rest : used_in size (suc k) j bytes ≡ rest = rw unused refl in
          let r =
            scan_block-Filled boot size k (j + 1) bytes d es h
              (omega (arith, room, ap (λ l. length (es ++ l)) e_rest)) in
          subst (λ l. Filled d (es ++ l) (scan_block boot size (suc k) j bytes d)) (sym e_rest)
            (subst (Filled d (es ++ rest))
              (sym (scan_block-step boot size k j bytes d false unused)) r)
    ]

-- `n` blocks from `lba` on, read through the buffers as 512 bytes each, have these used entries.
pub data TableAt {W : Type 0} (drives : Drives W) (fuel drive size : ℕ)
    : ℕ → ℕ → Bcache W → List GptEntry → Type 0 where
  finish : {lba : ℕ} {c : Bcache W} → TableAt drives fuel drive size 0 lba c []
  block :
      {n lba i : ℕ} {c c' : Bcache W} {es : List GptEntry}
      → bcache_get drives fuel c drive lba ≡ done (some i, c')
      → length (c'.buf i).contents ≡ 512
      → TableAt drives fuel drive size n (word (lba + 1)) (bcache_release c' i) es
      → TableAt drives fuel drive size
          (suc n)
          lba
          c
          (used_in size (512 / size) 0 (c'.buf i).contents ++ es)

scan_table-Filled :
    {W : Type 0} (drives : Drives W) (behind : Buf → List ℕ) (fuel boot size drive : ℕ) {n lba : ℕ}
    {c : Bcache W} (d : Drive) (es : List GptEntry) {table : List GptEntry}
    → d.number ≡ drive
    → 56 ≤ size
    → TableAt drives fuel drive size n lba c table
    → HasPartitions d es
    → length (es ++ table) ≤ max_partitions
    → (d' : Drive) × (c' : Bcache W) × (scan_table drives behind fuel boot size n lba c d
        ≡ done (d', c'))
      × HasPartitions d' (es ++ table)
unfolding scan_table
scan_table-Filled drives behind fuel boot size drive d es e whole (finish {lba = lba} {c = c}) h
      room =
    (d, c, refl, subst (HasPartitions d) (sym (append-nil es)) h)
scan_table-Filled drives behind fuel boot size drive d es e whole
      (block {n = n} {lba = lba} {i = i} {c = c} {c' = c'} {es = more} got full table) h room =
    let here = used_in size (512 / size) 0 (c'.buf i).contents in
    let joined = append_assoc es here more in
    let fits : length (es ++ here) ≤ max_partitions =
      omega (arith, room, ap length joined, length-append (es ++ here) more) in
    let s = scan_block-Filled boot size (512 / size) 0 (c'.buf i).contents d es h fits in
    let r =
      scan_table-Filled drives behind fuel boot size drive
        (scan_block boot size (512 / size) 0 (c'.buf i).contents d) (es ++ here) (s.1 ∙ e) whole
        table s.0 (omega (arith, room, ap length joined)) in
    let got' : bcache_get drives fuel c d.number lba ≡ done (some i, c') =
      ap (λ k. bcache_get drives fuel c k lba) e ∙ got in
    let inside =
      scan_block-append boot size (c'.buf i).contents (behind (c'.buf i)) whole (512 / size) 0 d
        (rw full (blocks_fit size whole)) in
    (r.0, r.1, rw (got', inside) r.2, subst (HasPartitions r.0) joined r.3)

-- On a drive without partitions whose header, in block 1, gives an entry size from 56 bytes, which are
-- those of an entry up to its attributes, to 512, and whose table is read through the buffers in
-- blocks of 512 bytes and has at most 128 used entries, `gpt_initialise_drive` ends, the drive counts the used entries, and its slots hold them in the
-- order of the table; the slots behind them stay free. The table is as many blocks as full blocks
-- of entries fit in the number of entries.
pub gpt_initialise_drive-HasPartitions :
    {W : Type 0} (drives : Drives W) (behind : Buf → List ℕ) (fuel boot : ℕ) (c c' : Bcache W)
    (d : Drive) (i : ℕ) (h : GptHeader) (table : List GptEntry)
    → bcache_get drives fuel c d.number 1 ≡ done (some i, c')
    → header_of (c'.buf i).contents ≡ h
    → 56 ≤ h.entry_size
    → h.entry_size ≤ 512
    → TableAt drives fuel d.number h.entry_size
        (h.part_count / (512 / h.entry_size))
        (if h.gpt_array_start_lba == 0 then 2 else h.gpt_array_start_lba)
        (bcache_release c' i)
        table
    → HasPartitions d []
    → length table ≤ max_partitions
    → (d' : Drive) × (c'' : Bcache W) × (gpt_initialise_drive drives behind fuel c d boot
        ≡ done (d', c''))
      × HasPartitions d' table
unfolding gpt_initialise_drive
gpt_initialise_drive-HasPartitions drives behind fuel boot c c' d i h table got header whole small
      at empty room =
    let plain : (h.entry_size == 0 || ltb 512 h.entry_size) ≡ false =
      ground (arith, whole, small) in
    let r =
      scan_table-Filled drives behind fuel boot h.entry_size d.number d [] refl whole at empty
        room in
    (r.0, r.1, rw (got, header, plain) r.2, r.3)
