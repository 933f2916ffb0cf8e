-- ===== src/Filesys/OpenFile/Write.antt =====
-- OpenFile::WriteAt of code/filesys/openfile.cc.
use nachos.Prelude.{
  ℕ, ◌+◌, ◌-◌, ◌*◌, ◌/◌, ◌%◌, ◌≤◌, ◌<◌, ◌≡◌, refl, ap, ◌∙◌, sym, Bool, true, false, ◌||◌, arith,
  leb, ◌^◌, ◌==◌, if◌then◌else◌, Result, ok, ◌>>=◌, inl, inr, ◌⊎◌, Bool-cases, ◌≢◌,
}
use native.Mathlib.Decide.{dec_lt, dec_le}
use nachos.Filesys.FileHeader.{FileHeader}
use nachos.Filesys.OpenFile.{Buffer, Disk, bcopy, write_sectors, clip, read_ends, write_at}
use nachos.Filesys.OpenFile.Blocks.{
  IsGood, Written, content, write_sectors_lem, bcopy-inside, bcopy-outside,
}
use nachos.Filesys.OpenFile.Read.{served, clip-served}
use nachos.Filesys.OpenFile.Ends.{Prepared, read_ends_lem}

module _ (disk : Disk) (hdr : FileHeader) (good : IsGood hdr) (fresh fresh' buf from : Buffer)
    (num_bytes position : ℕ) where
  -- The n bytes are in the file, the rest of it is what it was, and so is each sector of others.
  pub record Stored (n : ℕ) (disk' : Disk) : Type 0 where
    pub stored : (k : ℕ) → k < n → content disk' hdr (position + k) ≡ from k
    pub kept :
        (k : ℕ)
        → k < hdr.num_bytes
        → (k < position) ⊎ (position + n ≤ k)
        → content disk' hdr k ≡ content disk hdr k
    pub elsewhere :
        (sector k : ℕ)
        → ((i : ℕ) → i < hdr.num_sectors → hdr.data_sectors i ≢ sector)
        → disk' sector k ≡ disk sector k

  abbrev n : ℕ
  n = served hdr num_bytes position

  abbrev head : ℕ
  head = position / 128

  abbrev rounds : ℕ
  rounds = 1 + (position + n - 1) / 128 - head

  abbrev filled : Buffer → Buffer
  filled ends = bcopy from 0 ends (position - head * 128) n

  in_block :
      (disk' : Disk) (ends : Buffer)
      → Written disk disk' hdr head 0 rounds (filled ends)
      → (k : ℕ) → head * 128 ≤ k
      → k < (head + rounds) * 128
      → content disk' hdr k ≡ filled ends (k - head * 128)
  in_block disk' ends w k a b =
      ap (λ (i : ℕ). disk' (hdr.data_sectors i) (k % 128)) {x = k / 128}
        {y = head + (k / 128 - head)} (omega arith)
      ∙ w.inside (k / 128 - head) (k % 128) (omega arith) (omega arith)
      ∙ ap (filled ends) {x = (k / 128 - head) * 128 + k % 128} {y = k - head * 128} (omega arith)

  off_block :
      (disk' : Disk) (ends : Buffer)
      → Written disk disk' hdr head 0 rounds (filled ends)
      → head + rounds ≤ hdr.num_sectors
      → (k : ℕ) → k < hdr.num_bytes
      → (k < head * 128) ⊎ ((head + rounds) * 128 ≤ k)
      → content disk' hdr k ≡ content disk hdr k
  off_block disk' ends w fits k h away =
      w.outside (hdr.data_sectors (k / 128)) (k % 128) (λ i a b clash.
        let same : head + i ≡ k / 128 =
          good.apart (head + i) (k / 128) (omega arith) (omega (arith, good.covers)) clash in
        elim away [ inl before ↦ absurd (omega arith) | inr after ↦ absurd (omega arith) ])

  -- Where a byte of the blocks stands in the buffer.
  moved :
      (k : ℕ)
      → head * 128 ≤ k
      → (k < position) ⊎ (position + n ≤ k)
      → (k - head * 128 < position - head * 128) ⊎ (position - head * 128 + n ≤ k - head * 128)
  moved k h (inl before) = inl (omega arith)
  moved k h (inr after) = inr (omega arith)

  back :
      (k : ℕ)
      → head * 128 ≤ k
      → (k < position) ⊎ (position + n ≤ k)
      → (head * 128 + (k - head * 128) < position) ⊎ (position + n ≤ head * 128 + (k - head * 128))
  back k h (inl before) = inl (omega arith)
  back k h (inr after) = inr (omega arith)

  module _ (positive : 0 < n) (within : position + n ≤ hdr.num_bytes)
      (fits : head + rounds ≤ hdr.num_sectors) where
    Written-Stored :
        (disk' : Disk) (ends : Buffer)
        → Prepared disk hdr good fresh fresh' buf n position positive within ends
        → Written disk disk' hdr head 0 rounds (filled ends)
        → Stored n disk'
    Written-Stored disk' ends ready w = record {
      stored = λ k h.
          in_block disk' ends w (position + k) (omega arith) (omega arith)
          ∙ bcopy-inside from 0 ends (position - head * 128) n (position + k - head * 128)
              (omega arith) (omega arith)
          ∙ ap from {x = 0 + (position + k - head * 128 - (position - head * 128))} {y = k}
              (omega arith);
      kept = λ k h away. elim (dec_le (head * 128) k) [
        | no before ↦ off_block disk' ends w fits k h (inl (omega arith))
        | yes from_head ↦ elim (dec_lt k ((head + rounds) * 128)) [
          | no after ↦ off_block disk' ends w fits k h (inr (omega arith))
          | yes inside ↦
              in_block disk' ends w k from_head inside
              ∙ bcopy-outside from 0 ends (position - head * 128) n (k - head * 128)
                  (moved k from_head away)
              ∙ ready (k - head * 128) (omega arith) (omega arith) (back k from_head away)
              ∙ ap (content disk hdr) {x = head * 128 + (k - head * 128)} {y = k} (omega arith)
        ]
      ];
      elsewhere = λ sector k away. w.outside sector k (λ i a b. away (head + i) (omega arith));
    }

  admitted :
      position + num_bytes < 2 ^ 31
      → (num_bytes == 0 || leb hdr.num_bytes position) ≡ false
      → write_at disk hdr fresh fresh' buf from num_bytes position ≡ (
          read_ends disk hdr fresh fresh' buf n position >>= λ ends.
          write_sectors hdr head (filled ends) head rounds disk >>= λ d. ok (n, d))
  unfolding write_at
  admitted small h =
      ap (λ (b : Bool). if b then ok (0, disk) else (clip hdr num_bytes position >>= body)) h
      ∙ ap (λ (r : Result ℕ). r >>= body) (clip-served hdr num_bytes position small h).0
    where
      body : ℕ → Result (ℕ × Disk)
      body m = read_ends disk hdr fresh fresh' buf m position >>= λ ends.
          write_sectors hdr head (bcopy from 0 ends (position - head * 128) m) head
            (1 + (position + m - 1) / 128 - head) disk
          >>= λ d. ok (m, d)

  refused :
      (num_bytes == 0 || leb hdr.num_bytes position) ≡ true
      → (write_at disk hdr fresh fresh' buf from num_bytes position ≡ ok (0, disk)) × (n ≡ 0)
  unfolding write_at
  refused h = (rw h refl, ground arith)

  -- For a file with a good header, while the position and the number of bytes add up to an int,
  -- WriteAt comes back with the number of bytes asked for, cut at the end of the file; exactly
  -- these bytes of the file change, to those given, and no sector of another file does, whatever
  -- fresh buffers held.
  pub write_at_lem :
      position + num_bytes < 2 ^ 31
      → (disk' : Disk) × (write_at disk hdr fresh fresh' buf from num_bytes position
          ≡ ok (n, disk'))
        × Stored n disk'
  write_at_lem small = elim (Bool-cases (num_bytes == 0 || leb hdr.num_bytes position)) [
    | inl none_left ↦
        let (e, z) = refused none_left in
        (
          disk,
          e ∙ ap (λ (m : ℕ). ok (m, disk)) (sym z),
          record {
            stored = λ k h. absurd (omega arith);
            kept = λ k h away. refl;
            elsewhere = λ sector k away. refl;
          },
        )
    | inr some_left ↦
        let (clipped, positive, within) = clip-served hdr num_bytes position small some_left in
        let fits : head + rounds ≤ hdr.num_sectors = omega (arith, good.covers) in
        let (ends, e, ready) =
          read_ends_lem disk hdr good fresh fresh' buf n position positive within in
        let (disk', f, w) =
          write_sectors_lem hdr good head 0 rounds (filled ends) disk (omega arith) in
        (
          disk',
          admitted small some_left
              ∙ ap
                  (λ (r : Result Buffer). r >>= λ b.
                    write_sectors hdr head (filled b) head rounds disk >>= λ d. ok (n, d))
                  e
              ∙ ap
                  (λ (i : ℕ). write_sectors hdr head (filled ends) i rounds disk >>= λ d. ok (n, d))
                  {x = head} {y = head + 0} (omega arith)
              ∙ ap (λ (r : Result Disk). r >>= λ d. ok (n, d)) f,
          Written-Stored positive within fits disk' ends ready w,
        )
  ]
