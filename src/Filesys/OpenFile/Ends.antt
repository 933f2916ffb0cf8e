-- ===== src/Filesys/OpenFile/Ends.antt =====
-- OpenFile::WriteAt of code/filesys/openfile.cc: the sectors at the ends, which are read first.
use nachos.Prelude.{
  ℕ, ◌+◌, ◌-◌, ◌*◌, ◌/◌, ◌≤◌, ◌<◌, ◌≡◌, refl, ap, ◌∙◌, Bool, true, false, not, ◌&&◌, ◌||◌, arith,
  ◌==◌, if◌then◌else◌, Result, ok, ◌>>=◌, inl, inr, ◌⊎◌, Bool-cases, ◌≢◌,
}
use native.Mathlib.Decide.{ℕ_discrete}
use nachos.Filesys.FileHeader.{FileHeader}
use nachos.Filesys.OpenFile.{Buffer, Disk, read_at, read_ends}
use nachos.Filesys.OpenFile.Blocks.{IsGood, content}
use nachos.Filesys.OpenFile.Read.{served, read_at_lem}

module _ (disk : Disk) (hdr : FileHeader) (good : IsGood hdr) (fresh fresh' buf : Buffer)
    (n position : ℕ) (positive : 0 < n) (within : position + n ≤ hdr.num_bytes) where
  abbrev first : ℕ
  first = position / 128

  abbrev last : ℕ
  last = (position + n - 1) / 128

  -- What the file holds of the sectors that are written, outside of what is to change.
  abbrev pub Prepared : Buffer → Type 0
  Prepared ends =
      (k : ℕ)
      → k < (last - first + 1) * 128
      → first * 128 + k < hdr.num_bytes
      → (first * 128 + k < position) ⊎ (position + n ≤ first * 128 + k)
      → ends k ≡ content disk hdr (first * 128 + k)

  read_first :
      (aligned : Bool)
      → (m : ℕ) × (buf1 : Buffer) × ((if not aligned
            then read_at disk hdr fresh buf 0 128 (first * 128)
            else ok (0, buf))
          ≡ ok (m, buf1))
        × (aligned ≡ false
            → (k : ℕ) → k < 128
            → first * 128 + k < hdr.num_bytes
            → buf1 k ≡ content disk hdr (first * 128 + k))
  read_first true = (0, buf, refl, λ h. cc)
  read_first false =
      let (buf1, e, (copied, rest)) =
        read_at_lem disk hdr good fresh buf 0 128 (first * 128)
          (omega (arith, good.covers, good.in_header)) in
      (
        served hdr 128 (first * 128),
        buf1,
        e,
        λ h k a b. ap buf1 {x = k} {y = 0 + k} (omega arith) ∙ copied k (omega arith),
      )

  read_last :
      (buf1 : Buffer) (wanted : Bool)
      → (m : ℕ) × (buf2 : Buffer) × ((if wanted
            then read_at disk hdr fresh' buf1 ((last - first) * 128) 128 (last * 128)
            else ok (0, buf1))
          ≡ ok (m, buf2))
        × (wanted ≡ true
            → (k : ℕ) → (last - first) * 128 ≤ k
            → k < (last - first + 1) * 128
            → first * 128 + k < hdr.num_bytes
            → buf2 k ≡ content disk hdr (first * 128 + k))
        × ((k : ℕ) → k < (last - first) * 128 → buf2 k ≡ buf1 k)
        × (wanted ≡ false → (k : ℕ) → buf2 k ≡ buf1 k)
  read_last buf1 false = (0, buf1, refl, λ h. cc, λ k a. refl, λ h k. refl)
  read_last buf1 true =
      let (buf2, e, (copied, rest)) =
        read_at_lem disk hdr good fresh' buf1 ((last - first) * 128) 128 (last * 128)
          (omega (arith, good.covers, good.in_header)) in
      (
        served hdr 128 (last * 128),
        buf2,
        e,
        λ h k a b c.
            ap buf2 {x = k} {y = (last - first) * 128 + (k - (last - first) * 128)} (omega arith)
            ∙ copied (k - (last - first) * 128) (omega arith)
            ∙ ap (content disk hdr) {x = last * 128 + (k - (last - first) * 128)}
                {y = first * 128 + k} (omega arith),
        λ k a. rest k (inl a),
        λ h. cc,
      )

  abbrev first_aligned : Bool
  first_aligned = position == first * 128

  abbrev wanted : Bool
  wanted = not (position + n == (last + 1) * 128) && (not (first == last) || first_aligned)

  unwanted :
      wanted ≡ false → position + n ≢ (last + 1) * 128 → (first ≡ last) × (first_aligned ≡ false)
  unwanted h h' = (ground arith, ground arith)

  alone : first ≡ last → first_aligned ≡ false → wanted ≡ false
  alone h h' = ground arith

  prepared :
      (buf1 ends : Buffer)
      → (first_aligned ≡ false
          → (k : ℕ) → k < 128
          → first * 128 + k < hdr.num_bytes
          → buf1 k ≡ content disk hdr (first * 128 + k))
      → (wanted ≡ true
          → (k : ℕ) → (last - first) * 128 ≤ k
          → k < (last - first + 1) * 128
          → first * 128 + k < hdr.num_bytes
          → ends k ≡ content disk hdr (first * 128 + k))
      → ((k : ℕ) → k < (last - first) * 128 → ends k ≡ buf1 k)
      → (wanted ≡ false → (k : ℕ) → ends k ≡ buf1 k)
      → Prepared ends
  prepared buf1 ends at_first at_last below kept k inside in_file (inl before) =
      let partial : first_aligned ≡ false = ground arith in
      let from_first : buf1 k ≡ content disk hdr (first * 128 + k) =
        at_first partial k (omega arith) in_file in
      elim (ℕ_discrete first last) [
        | yes same ↦ kept (alone same partial) k ∙ from_first
        | no other ↦ below k (omega arith) ∙ from_first
      ]
  prepared buf1 ends at_first at_last below kept k inside in_file (inr after) =
      elim (Bool-cases wanted) [
        | inl read ↦ at_last read k (omega arith) inside in_file
        | inr not_read ↦
            let (same, partial) = unwanted not_read (omega arith) in
            kept not_read k ∙ at_first partial k (omega arith) in_file
      ]

  pub read_ends_lem :
      (ends : Buffer) × (read_ends disk hdr fresh fresh' buf n position ≡ ok ends) × Prepared ends
  unfolding read_ends
  read_ends_lem =
      let (m1, buf1, e, at_first) = read_first first_aligned in
      let (m2, buf2, f, at_last, below, kept) = read_last buf1 wanted in
      (
        buf2,
        ap
              (λ (r : Result (ℕ × Buffer)). r >>= λ p.
                (if wanted
                  then read_at disk hdr fresh' p.1 ((last - first) * 128) 128 (last * 128)
                  else ok (0, p.1))
                >>= λ q. ok q.1)
              e
            ∙ ap (λ (r : Result (ℕ × Buffer)). r >>= λ q. ok q.1) f,
        prepared buf1 buf2 at_first at_last below kept,
      )
