-- ===== src/Tests/Buffers.antt =====
-- The writer and the reader on small values.
use fitz_ts.Base.{◌≡◌, arith, [], ◌∷◌, ok, ◌>>=◌}
use fitz_ts.Buffer.Text.{Str}
use fitz_ts.Buffer.Writer.{new_writer, write_u64_be_number, write_string, get_buffer}
use fitz_ts.Buffer.Reader.{read_u64_be, read_string, run_reader}
use fitz_ts.Buffer.Reader.Values.{IsWireText}
use fitz_ts.Buffer.RoundTrip.{read_u64_be-write_u64_be_number, read_string-write_string}
use fitz_ts.Tests.Ascii.{ascii}

-- "kv"
abbrev kv : Str
kv = 107 ∷ 118 ∷ []

kv-IsWireText : IsWireText kv
kv-IsWireText = record { text = ground arith; short = omega arith }

-- The writer has no room at first.
read_string-write_string_example :
    (write_string kv (new_writer 0) >>= λ w. run_reader read_string (get_buffer w)) ≡ ok kv
read_string-write_string_example = read_string-write_string kv 0 kv-IsWireText

read_u64_be-write_u64_be_number_run :
    (write_u64_be_number 4294967301 (new_writer 2) >>= λ w. run_reader read_u64_be (get_buffer w))
    ≡ ok 4294967301
read_u64_be-write_u64_be_number_run = read_u64_be-write_u64_be_number 4294967301 2 (omega arith)
