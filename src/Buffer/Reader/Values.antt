-- ===== src/Buffer/Reader/Values.antt =====
-- Reads of texts and optional values, and reads that end with the array.
use fitz_ts.Base.{
  ℕ, suc, ◌^◌, ◌<◌, ◌≤◌, ◌≡◌, refl, ap, [], ◌∷◌, ◌++◌, length, some, none, Bool, false, ◌==◌,
  if◌then◌else◌, ok, Error, arith, append-nil,
}
use fitz_ts.Bytes.{Bytes, be}
use fitz_ts.Buffer.Text.{Utf8, Str}
use fitz_ts.Buffer.Writer.Strings.{string_bytes}
use fitz_ts.Buffer.Reader.{
  Reader, new_reader, Read, ◌>>=◌, ◌>>◌, pure, advance, read_u8, read_slice, read_bytes,
  read_string, read_u16_be, read_u32_be, read_u64_be, read_optional_u64, read_optional_string,
  read_optional_bytes, throw_if, run_reader, throw_unless_eof,
}
use fitz_ts.Buffer.Reader.Laws.{
  Ahead, Reads, Ahead-advance, Reads-pure, Reads-bind, read_u8-Reads, read_slice-Reads,
  read_uint-Reads, is_eof-Ahead, new_reader-Ahead,
}

pub read_u16_be-Reads : (v : ℕ) → v < 256 ^ 2 → Reads read_u16_be (be 2 v) v
read_u16_be-Reads v = read_uint-Reads _ 2 v

pub read_u32_be-Reads : (v : ℕ) → v < 256 ^ 4 → Reads read_u32_be (be 4 v) v
read_u32_be-Reads v = read_uint-Reads _ 4 v

pub read_u64_be-Reads : (v : ℕ) → v < 256 ^ 8 → Reads read_u64_be (be 8 v) v
read_u64_be-Reads v = read_uint-Reads _ 8 v

pub read_bytes-Reads : (bs : Bytes) → Reads (read_bytes (length bs)) bs bs
read_bytes-Reads = read_slice-Reads _

-- Returns `v` from exactly the bytes `bs` that are left.
abbrev pub Finishes : {A : Type 0} → Read A → Bytes → A → Type 0
Finishes m bs v = (r : Reader) → Ahead r bs → (r' : Reader) × (m r ≡ ok (v, r'))

pub Reads-Finishes : {A : Type 0} (m : Read A) (bs : Bytes) (v : A) → Reads m bs v → Finishes m bs v
Reads-Finishes m bs v h r a = (advance r (length bs), h r [] (rw append-nil a))

pub Finishes-bind :
    {A B : Type 0} (m : Read A) (f : A → Read B) (bs cs : Bytes) (a : A) (b : B)
    → Reads m bs a
    → Finishes (f a) cs b
    → Finishes (m >>= f) (bs ++ cs) b
Finishes-bind m f bs cs a b hm hf r h =
    let (r', run) = hf (advance r (length bs)) (Ahead-advance r bs cs h) in
    (r', rw (hm r cs h, ◌>>=◌) run)

pub Finishes-eof : {A : Type 0} (e : Error) (v : A) → Finishes (throw_unless_eof e >> pure v) [] v
Finishes-eof e v r h = (r, rw (is_eof-Ahead r h, ◌>>=◌))

pub Finishes-guard :
    {A : Type 0} (b : Bool) (e : Error) (k : Read A) (bs : Bytes) (v : A)
    → b ≡ false
    → Finishes k bs v
    → Finishes (throw_if b e >> k) bs v
Finishes-guard b e k bs v h f r a = rw h (f r a)

pub run_reader-Finishes :
    {A : Type 0} (m : Read A) (bs : Bytes) (v : A) → Finishes m bs v → run_reader m bs ≡ ok v
run_reader-Finishes m bs v h =
    let (r', run) = h (new_reader bs) (new_reader-Ahead bs) in rw (run, run_reader)

pub Reads-map :
    {A B : Type 0} (m : Read A) (f : A → B) (bs : Bytes) (a : A)
    → Reads m bs a
    → Reads (m >>= λ x. pure (f x)) bs (f a)
Reads-map m f bs a hm r t h = rw (hm r t h, ◌>>=◌)

nonzero : (n : ℕ) → (suc n == 0) ≡ false
nonzero n = ground arith

nil_of_length : (s : Str) → length s ≤ 0 → s ≡ []
nil_of_length [] h = refl
nil_of_length (c ∷ s) h = absurd (omega arith)

module _ ⦃u : Utf8⦄ where
  open u use {encode, decode, IsText, length-le-encode, decode-encode}

  -- A text that the decoder gives back and whose length fits its four bytes.
  pub record IsWireText (s : Str) : Type 0 where
    pub text : IsText s
    pub short : length (encode s) < 256 ^ 4

  decode_slice : ℕ → Read Str
  decode_slice n =
      if n == 0
      then pure []
      else (read_slice "Buffer overflow: cannot read string" n >>= λ bytes. pure (decode bytes))

  decode_slice-Reads :
      (bs : Bytes) (s : Str) → encode s ≡ bs → decode bs ≡ s → Reads (decode_slice (length bs)) bs s
  unfolding decode_slice
  decode_slice-Reads [] s e d =
      rw (nil_of_length s (omega (arith, length-le-encode s, ap length e))) (Reads-pure [])
  decode_slice-Reads (b ∷ bs) s e d =
      rw (nonzero (length bs), ← d)
        (Reads-map (read_slice _ (length (b ∷ bs))) decode (b ∷ bs) (b ∷ bs)
          (read_slice-Reads _ (b ∷ bs)))

  pub read_string-Reads : (s : Str) → IsWireText s → Reads read_string (string_bytes s) s
  unfolding read_string decode_slice
  read_string-Reads s h =
      Reads-bind read_u32_be decode_slice (be 4 (length (encode s))) (encode s) (length (encode s))
        s (read_u32_be-Reads (length (encode s)) h.short)
        (decode_slice-Reads (encode s) s refl (decode-encode s h.text))

  pub read_optional_string-Reads :
      (s : Str) → IsWireText s → Reads read_optional_string (1 ∷ string_bytes s) (some s)
  unfolding read_optional_string
  read_optional_string-Reads s h =
      Reads-bind read_u8 _ (1 ∷ []) (string_bytes s) 1 (some s) (read_u8-Reads 1)
        (Reads-map read_string some (string_bytes s) s (read_string-Reads s h))

  pub read_optional_string-none : Reads read_optional_string (0 ∷ []) none
  unfolding read_optional_string
  read_optional_string-none =
      Reads-bind read_u8 _ (0 ∷ []) [] 0 none (read_u8-Reads 0) (Reads-pure none)

pub read_optional_u64-Reads : (v : ℕ) → v < 256 ^ 8 → Reads read_optional_u64 (1 ∷ be 8 v) (some v)
unfolding read_optional_u64
read_optional_u64-Reads v h =
    Reads-bind read_u8 _ (1 ∷ []) (be 8 v) 1 (some v) (read_u8-Reads 1)
      (Reads-map read_u64_be some (be 8 v) v (read_u64_be-Reads v h))

pub read_optional_bytes-Reads :
    (bs : Bytes)
    → length bs < 256 ^ 4
    → Reads read_optional_bytes (1 ∷ (be 4 (length bs) ++ bs)) (some bs)
unfolding read_optional_bytes
read_optional_bytes-Reads bs h =
    Reads-bind read_u8 _ (1 ∷ []) (be 4 (length bs) ++ bs) 1 (some bs) (read_u8-Reads 1) (
      Reads-bind read_u32_be _ (be 4 (length bs)) bs (length bs) (some bs)
        (read_u32_be-Reads (length bs) h)
        (Reads-map (read_bytes (length bs)) some bs bs (read_bytes-Reads bs)))

-- The last read, and what is done at the end of the array.
pub Finishes-end :
    {A B : Type 0} (m : Read A) (f : A → Read B) (bs : Bytes) (a : A) (b : B)
    → Reads m bs a
    → Finishes (f a) [] b
    → Finishes (m >>= f) bs b
Finishes-end m f bs a b hm hf = rw append-nil at (Finishes-bind m f bs [] a b hm hf)

pub Finishes-last :
    {A B : Type 0} (m : Read A) (e : Error) (f : A → B) (bs : Bytes) (a : A)
    → Reads m bs a
    → Finishes (m >>= λ x. throw_unless_eof e >> pure (f x)) bs (f a)
Finishes-last m e f bs a h = Finishes-end m _ bs a (f a) h (Finishes-eof e (f a))
