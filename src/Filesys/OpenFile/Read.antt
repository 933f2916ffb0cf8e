-- ===== src/Filesys/OpenFile/Read.antt =====
-- OpenFile::ReadAt of code/filesys/openfile.cc.
use nachos.Prelude.{
  ℕ, ◌+◌, ◌-◌, ◌*◌, ◌/◌, ◌≤◌, ◌<◌, ◌≡◌, refl, ap, ◌∙◌, sym, Bool, true, false, ◌||◌, arith, leb,
  ltb, ltb_iff, ◌^◌, ◌==◌, if◌then◌else◌, Result, ok, ◌>>=◌, inl, inr, ◌⊎◌, Bool-cases, min,
}
use nachos.Filesys.FileHeader.{FileHeader}
use nachos.Filesys.OpenFile.{Buffer, Disk, bcopy, read_sectors, clip, read_at}
use nachos.Filesys.OpenFile.Blocks.{IsGood, content, read_sectors_lem, bcopy-inside, bcopy-outside}

-- The number of bytes that a request gets: those asked for, as far as the file reaches.
abbrev pub served : FileHeader → ℕ → ℕ → ℕ
served hdr num_bytes position = min num_bytes (hdr.num_bytes - position)

-- n bytes of the file have come to index `to`, and nothing else has changed.
abbrev pub Copied : Disk → FileHeader → ℕ → ℕ → ℕ → Buffer → Buffer → Type 0
Copied disk hdr position to n into into' =
    ((k : ℕ) → k < n → into' (to + k) ≡ content disk hdr (position + k))
    × ((k : ℕ) → (k < to) ⊎ (to + n ≤ k) → into' k ≡ into k)

module _ (hdr : FileHeader) (num_bytes position : ℕ) where
  pub clip-served :
      position + num_bytes < 2 ^ 31
      → (num_bytes == 0 || leb hdr.num_bytes position) ≡ false
      → (clip hdr num_bytes position ≡ ok (served hdr num_bytes position))
        × (0 < served hdr num_bytes position)
        × (position + served hdr num_bytes position ≤ hdr.num_bytes)
  unfolding clip
  clip-served small h =
      let in_range : ltb (position + num_bytes) (2 ^ 31) ≡ true = (ltb_iff _ _).1 small in
      let fits : (if ltb hdr.num_bytes (position + num_bytes)
            then hdr.num_bytes - position
            else num_bytes)
          ≡ served hdr num_bytes position =
        ground arith in
      (rw in_range (ap ok fits), ground arith, ground arith)

module _ (disk : Disk) (hdr : FileHeader) (good : IsGood hdr) (fresh into : Buffer)
    (to num_bytes position : ℕ) where
  abbrev n : ℕ
  n = served hdr num_bytes position

  refused :
      (num_bytes == 0 || leb hdr.num_bytes position) ≡ true
      → (read_at disk hdr fresh into to num_bytes position ≡ ok (0, into)) × (n ≡ 0)
  unfolding read_at
  refused h = (rw h refl, ground arith)

  abbrev first : ℕ
  first = position / 128

  abbrev copied : Buffer → Buffer
  copied buf = bcopy buf (position - first * 128) into to n

  admitted :
      position + num_bytes < 2 ^ 31
      → (num_bytes == 0 || leb hdr.num_bytes position) ≡ false
      → read_at disk hdr fresh into to num_bytes position ≡ (
          read_sectors disk hdr first first (1 + (position + n - 1) / 128 - first) fresh >>= λ buf.
          ok (n, copied buf))
  unfolding read_at
  admitted small h =
      ap (λ (b : Bool). if b then ok (0, into) else (clip hdr num_bytes position >>= body)) h
      ∙ ap (λ (r : Result ℕ). r >>= body) (clip-served hdr num_bytes position small h).0
    where
      body : ℕ → Result (ℕ × Buffer)
      body m =
          read_sectors disk hdr first first (1 + (position + m - 1) / 128 - first) fresh >>= λ buf.
          ok (m, bcopy buf (position - first * 128) into to m)

  -- While position + numBytes is an int, ReadAt comes back with the number of bytes that there
  -- are, up to the number asked for, and copies just these from the file.
  pub read_at_lem :
      position + num_bytes < 2 ^ 31
      → (into' : Buffer) × (read_at disk hdr fresh into to num_bytes position ≡ ok (n, into'))
        × Copied disk hdr position to n into into'
  read_at_lem small = elim (Bool-cases (num_bytes == 0 || leb hdr.num_bytes position)) [
    | inl none_left ↦
        let (e, z) = refused none_left in
        (into, e ∙ ap (λ (m : ℕ). ok (m, into)) (sym z), (λ k h. absurd (omega arith), λ k h. refl))
    | inr some_left ↦
        let (fits, positive, within) = clip-served hdr num_bytes position small some_left in
        let left : ℕ = 1 + (position + n - 1) / 128 - first in
        let (buf, e, inside, below) =
          read_sectors_lem disk hdr good first 0 left fresh (omega (arith, good.covers)) in
        (
          copied buf,
          admitted small some_left
              ∙ ap (λ (i : ℕ). read_sectors disk hdr first i left fresh >>= λ b. ok (n, copied b))
                  {x = first} {y = first + 0} (omega arith)
              ∙ ap (λ (r : Result Buffer). r >>= λ b. ok (n, copied b)) e,
          (
            λ k h.
                bcopy-inside buf (position - first * 128) into to n (to + k) (omega arith)
                  (omega arith)
                ∙ inside (position - first * 128 + (to + k - to)) (omega arith) (omega arith)
                ∙ ap (content disk hdr) {x = first * 128 + (position - first * 128 + (to + k - to))}
                    {y = position + k} (omega arith),
            λ k h. bcopy-outside buf (position - first * 128) into to n k h,
          ),
        )
  ]
