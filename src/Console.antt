-- ===== src/Console.antt =====
-- code/userprog/synchconsole.cc, and the calls of code/userprog/ksyscall.h on the keyboard and the
-- display. GetChar and PutChar are the console's own, which the thread waits for; the lock has one
-- holder at a time.
use nachos.Prelude.{
  ℕ, zero, suc, Bool, true, false, List, [], ◌∷◌, ◌++◌, if◌then◌else◌, ◌==◌, ℤ, pos_part, Result,
  ok, abort, ◌>>=◌,
}
use nachos.Filesys.FileTable.{failed, Unix, Files, on_host}

-- The char EOF, and '\n'.
abbrev eof : ℕ
eof = 255

abbrev pub new_line : ℕ
new_line = 10

module _ {S : Type 0} (u : Unix S) where
  unfoldable pub get_char : Files S → ℕ × Files S
  get_char fs = let (ch, h) = u.get_char fs.host in (ch, on_host fs h)

  unfoldable pub put_char : Files S → ℕ → Files S
  put_char fs ch = on_host fs (u.put_char fs.host ch)

  -- The loop of GetString: whether it has met EOF, and what the buffer has got.
  unfoldable pub get_from : ℕ → Files S → Bool × List ℕ × Files S
  unfolding get_char
  get_from zero fs = (false, [], fs)
  get_from (suc left) fs =
      let (ch, fs') = get_char fs in
      elim (ch == eof) [
        | true ↦ (true, 0 ∷ [], fs')
        | false ↦ let (ended, rest, fs'') = get_from left fs' in (ended, ch ∷ rest, fs'')
      ]

  unfoldable pub get_string : Files S → ℤ → ℤ × List ℕ × Files S
  unfolding get_from
  get_string fs size =
      let (ended, bytes, fs') = get_from (pos_part size) fs in
      (if ended then failed else size, bytes, fs')

  -- The loop of PutString and of SysPrintString, within the buffer.
  unfoldable pub put_from : ℕ → Files S → List ℕ → Result (Files S)
  unfolding put_char
  put_from zero fs buffer = ok fs
  put_from (suc left) fs [] = abort
  put_from (suc left) fs (ch ∷ rest) = put_from left (put_char fs ch) rest

  unfoldable pub put_string : Files S → List ℕ → ℤ → Result (ℤ × Files S)
  unfolding put_from
  put_string fs buffer size = put_from (pos_part size) fs buffer >>= λ fs'. ok (size, fs')

  -- The loop of SysReadString.
  unfoldable pub read_line : ℕ → Files S → List ℕ × Files S
  unfolding get_char
  read_line zero fs = ([], fs)
  read_line (suc left) fs =
      let (ch, fs') = get_char fs in
      elim (ch == new_line) [
        | true ↦ ([], fs')
        | false ↦ let (rest, fs'') = read_line left fs' in (ch ∷ rest, fs'')
      ]

  unfoldable pub sys_read_string : Files S → List ℕ × Files S
  unfolding read_line
  sys_read_string fs = let (line, fs') = read_line 255 fs in (line ++ 0 ∷ [], fs')
