-- ===== src/Buffer/RoundTrip.antt =====
-- src/core/buffer.ts: what the writer writes, the reader reads.
use fitz_ts.Base.{ℕ, ◌≤◌, ◌≡◌, [], Result, ok, ◌>>=◌, arith}
use fitz_ts.Bytes.{Bytes, be}
use fitz_ts.Buffer.Text.{Utf8, Str}
use fitz_ts.Buffer.Cursor.{Cursor, max_safe_integer}
use fitz_ts.Buffer.Writer.{new_writer, write_u64_be_number, write_string, get_buffer}
use fitz_ts.Buffer.Writer.Laws.{Appends, new_writer-Written, get_buffer-Written}
use fitz_ts.Buffer.Writer.Appends.{write_u64_be_number-Appends}
use fitz_ts.Buffer.Writer.Strings.{string_bytes, write_string-Appends}
use fitz_ts.Buffer.Reader.{Read, read_u64_be, read_string, run_reader}
use fitz_ts.Buffer.Reader.Laws.{Reads}
use fitz_ts.Buffer.Reader.Values.{
  IsWireText, Reads-Finishes, run_reader-Finishes, read_u64_be-Reads, read_string-Reads,
}

abbrev write_then_read : {A : Type 0} → (Cursor → Result Cursor) → Read A → ℕ → Result A
write_then_read op m n = op (new_writer n) >>= λ w. run_reader m (get_buffer w)

write_then_read-Appends :
    {A : Type 0} (op : Cursor → Result Cursor) (m : Read A) (bs : Bytes) (v : A) (n : ℕ)
    → Appends op bs
    → Reads m bs v
    → write_then_read op m n ≡ ok v
write_then_read-Appends op m bs v n h g =
    let (w, run, written) = h (new_writer n) [] (new_writer-Written n) in
    rw (run, get_buffer-Written w bs written) (run_reader-Finishes m bs v (Reads-Finishes m bs v g))

-- A safe integer that is written in eight bytes is read again, whatever the writer's capacity.
pub read_u64_be-write_u64_be_number :
    (v capacity : ℕ)
    → v ≤ max_safe_integer
    → (write_u64_be_number v (new_writer capacity) >>= λ w. run_reader read_u64_be (get_buffer w))
      ≡ ok v
read_u64_be-write_u64_be_number v n h =
    write_then_read-Appends (write_u64_be_number v) read_u64_be (be 8 v) v n
      (write_u64_be_number-Appends v h) (read_u64_be-Reads v (omega arith))

module _ ⦃u : Utf8⦄ where
  -- A text that is written is read again, whatever the writer's capacity, if UTF-8 carries it and
  -- its encoding has fewer than 2 ^ 32 bytes.
  pub read_string-write_string :
      (s : Str) (capacity : ℕ)
      → IsWireText s
      → (write_string s (new_writer capacity) >>= λ w. run_reader read_string (get_buffer w)) ≡ ok s
  read_string-write_string s n h =
      write_then_read-Appends (write_string s) read_string (string_bytes s) s n
        (write_string-Appends s) (read_string-Reads s h)
