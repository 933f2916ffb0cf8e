-- ===== src/Filesys/FileTable/Sockets.antt =====
-- The methods of FileSystem in code/filesys/filesys.h that only sockets use.
use nachos.Prelude.{
  ℕ, zero, suc, ◌+◌, ◌≤◌, ◌<◌, ◌≡◌, refl, ap, ◌∙◌, Bool, true, false, not, ◌&&◌, List, [], none,
  some, arith, if◌then◌else◌, ℤ, pos, pos_part, ◌+ℤ◌, ◌-ℤ◌, ltb_ℤ, Result, ok, abort, ◌>>=◌, ◌>>◌,
  assert,
}
use native.Mathlib.Decide.{ℕ_discrete}
use nachos.Filesys.FileTable.{
  Name, failed, eq_ℤ, Unix, UnixFile, Files, plus_socket_id, is_socket, on_host, put_slot,
}
use nachos.Filesys.FileTable.Slots.{get_file_descriptor_empty_slot, socket_name, create, open_file}

abbrev pub is_socket_id : ℤ → UnixFile → Bool
is_socket_id id f = is_socket f && eq_ℤ f.socket_id id

module _ {S : Type 0} (u : Unix S) where
  -- OpenSocketTCP, with its ASSERT.
  unfoldable pub open_socket_tcp : Files S → Result (ℤ × Files S)
  open_socket_tcp fs =
      let (socket, h) = u.open_socket fs.host in
      assert (not (ltb_ℤ socket (pos 0))) >> ok (socket, on_host fs h)

  -- The new file gets the id; there is none where Open has failed.
  unfoldable pub open_new_socket : Files S → Result (ℤ × Files S)
  unfolding get_file_descriptor_empty_slot open_socket_tcp create open_file put_slot
  open_new_socket fs =
      let empty_slot = get_file_descriptor_empty_slot fs in
      if eq_ℤ empty_slot failed then ok (failed, fs) else (do
        (socket, fs1) ← open_socket_tcp fs
        let id = socket +ℤ plus_socket_id
        (made, fs2) ← create u fs1 (socket_name id)
        (opened, fs3) ← open_file u fs2 (socket_name id) (pos 1)
        elim opened [
          | none ↦ abort
          | some f ↦
              ok (id, put_slot fs3 (pos_part empty_slot) (some (record f { socket_id = id })))
        ])

  unfoldable pub connect : Files S → ℤ → Name → ℤ → ℤ × Files S
  connect fs id ip port =
      let (result, h) = u.connect_socket fs.host (id -ℤ plus_socket_id) ip port in
      (result, on_host fs h)

  -- The loop of SendSocketMessage from slot i on. An empty slot is dereferenced.
  unfoldable pub send_from : ℤ → List ℕ → ℤ → ℕ → ℕ → Files S → Result (ℤ × Files S)
  send_from id buffer length i zero fs = ok (failed, fs)
  send_from id buffer length i (suc left) fs = elim (fs.table i) [
    | none ↦ abort
    | some f ↦ elim (is_socket_id id f) [
      | true ↦
          let (result, h) = u.send fs.host (id -ℤ plus_socket_id) buffer in
          elim (ltb_ℤ length result) [
            | false ↦ ok (result, on_host fs h)
            | true ↦ send_from id buffer length (i + 1) left (on_host fs h)
          ]
      | false ↦ send_from id buffer length (i + 1) left fs
    ]
  ]

  unfoldable pub send_socket_message : Files S → ℤ → List ℕ → ℤ → Result (ℤ × Files S)
  unfolding send_from
  send_socket_message fs id buffer length = send_from id buffer length 0 20 fs

  unfoldable pub receive_from : ℤ → ℤ → ℕ → ℕ → Files S → Result (ℤ × List ℕ × Files S)
  receive_from id length i zero fs = ok (failed, [], fs)
  receive_from id length i (suc left) fs = elim (fs.table i) [
    | none ↦ abort
    | some f ↦ elim (is_socket_id id f) [
      | true ↦
          let (result, bytes, h) = u.receive fs.host (id -ℤ plus_socket_id) in
          elim (ltb_ℤ length result) [
            | false ↦ ok (result, bytes, on_host fs h)
            | true ↦ receive_from id length (i + 1) left (on_host fs h)
          ]
      | false ↦ receive_from id length (i + 1) left fs
    ]
  ]

  unfoldable pub receive_socket_message : Files S → ℤ → ℤ → Result (ℤ × List ℕ × Files S)
  unfolding receive_from
  receive_socket_message fs id length = receive_from id length 0 20 fs

  -- The loop goes past a slot with a file that is not the socket.
  abbrev pub Passed : Files S → ℤ → ℕ → Type 0
  Passed fs id j = (f : UnixFile) × (fs.table j ≡ some f) × (is_socket_id id f ≡ false)

  send_from_lem :
      (fs : Files S) (id : ℤ) (buffer : List ℕ) (length : ℤ) (k i left : ℕ)
      → i ≤ k
      → k < i + left
      → fs.table k ≡ none
      → ((j : ℕ) → i ≤ j → j < k → Passed fs id j)
      → send_from id buffer length i left fs ≡ abort
  unfolding send_from
  send_from_lem fs id buffer length k i zero le lt empty passed = absurd (omega arith)
  send_from_lem fs id buffer length k i (suc left) le lt empty passed = elim (ℕ_discrete i k) [
    | yes e ↦ let gone : fs.table i ≡ none = ap fs.table e ∙ empty in rw (gone, send_from) refl
    | no other ↦
        let (f, there, not_it) = passed i (omega arith) (omega arith) in
        rw (there, send_from, not_it)
          (send_from_lem fs id buffer length k (i + 1) left (omega arith) (omega arith) empty
            (λ j a b. passed j (omega arith) b))
  ]

  -- SendSocketMessage dereferences NULL when it meets an empty slot before a slot with the socket.
  pub send_socket_message-abort :
      (fs : Files S) (id : ℤ) (buffer : List ℕ) (length : ℤ) (k : ℕ)
      → k < 20
      → fs.table k ≡ none
      → ((j : ℕ) → j < k → Passed fs id j)
      → send_socket_message fs id buffer length ≡ abort
  unfolding send_socket_message
  send_socket_message-abort fs id buffer length k h empty passed =
      send_from_lem fs id buffer length k 0 20 (omega arith) (omega arith) empty
        (λ j a b. passed j b)
