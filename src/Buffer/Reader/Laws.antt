-- ===== src/Buffer/Reader/Laws.antt =====
-- Reads against the list of bytes behind the place.
use fitz_ts.Base.{
  String, ℕ, ◌+◌, ◌^◌, ◌<◌, ◌≤◌, ◌≡◌, refl, sym, ap, ◌∙◌, [], ◌∷◌, ◌++◌, length, take, drop, true,
  false, ltb, ok, arith, append-nil, append_assoc, length-append, length-drop, take-append,
  drop-append, drop-drop, get_elem?-drop,
}
use fitz_ts.Bytes.{Bytes, be}
use fitz_ts.Bytes.Laws.{length-be, of_be-be}
use fitz_ts.Buffer.Reader.{
  Reader, new_reader, Read, ◌>>=◌, pure, rest, advance, read_u8, read_slice, read_uint, is_eof,
  run_reader,
}

-- What a reader within its array has left.
pub record Ahead (r : Reader) (bs : Bytes) : Type 0 where
  pub left : rest r ≡ bs
  pub valid : r.offset ≤ length r.buffer

-- Takes `bs` off the front, whatever follows, and returns `v`.
abbrev pub Reads : {A : Type 0} → Read A → Bytes → A → Type 0
Reads m bs v = (r : Reader) (t : Bytes) → Ahead r (bs ++ t) → m r ≡ ok (v, advance r (length bs))

pub new_reader-Ahead : (bs : Bytes) → Ahead (new_reader bs) bs
new_reader-Ahead bs = record { left = refl; valid = omega arith }

pub room-Ahead :
    (r : Reader) (bs t : Bytes) → Ahead r (bs ++ t) → r.offset + length bs ≤ length r.buffer
room-Ahead r bs t h =
    omega (arith, ap length h.left, length-drop r.offset r.buffer, h.valid, length-append bs t)

pub Ahead-advance :
    (r : Reader) (bs t : Bytes) → Ahead r (bs ++ t) → Ahead (advance r (length bs)) t
Ahead-advance r bs t h = record {
  left =
      sym (drop-drop r.offset (length bs) _ r.buffer refl)
      ∙ ap (drop (length bs)) h.left
      ∙ drop-append (length bs) bs t refl;
  valid = room-Ahead r bs t h;
}

pub Reads-pure : {A : Type 0} (v : A) → Reads (pure v) [] v
Reads-pure v r t h =
    let same : r.offset ≡ r.offset + 0 = omega arith in
    ap (λ n. ok (v, record r { offset = n })) same

pub Reads-bind :
    {A B : Type 0} (m : Read A) (f : A → Read B) (bs cs : Bytes) (a : A) (b : B)
    → Reads m bs a
    → Reads (f a) cs b
    → Reads (m >>= f) (bs ++ cs) b
Reads-bind m f bs cs a b hm hf r t h =
    let first : Ahead r (bs ++ (cs ++ t)) = rw append_assoc at h in
    let place : (r.offset + length bs) + length cs ≡ r.offset + length (bs ++ cs) =
      omega (arith, length-append bs cs) in
    rw (hm r (cs ++ t) first, ◌>>=◌)
      (hf (advance r (length bs)) t (Ahead-advance r bs (cs ++ t) first)
        ∙ ap (λ n. ok (b, record r { offset = n })) place)

pub read_u8-Reads : (b : ℕ) → Reads read_u8 (b ∷ []) b
unfolding read_u8
read_u8-Reads b r t h = rw (get_elem?-drop r.buffer r.offset h.left)

within :
    (r : Reader) (bs t : Bytes)
    → Ahead r (bs ++ t)
    → ltb (length r.buffer) (r.offset + length bs) ≡ false
within r bs t h = ground (arith, room-Ahead r bs t h)

front : (r : Reader) (bs t : Bytes) → Ahead r (bs ++ t) → take (length bs) (rest r) ≡ bs
front r bs t h = ap (take (length bs)) h.left ∙ take-append (length bs) bs t refl

pub read_slice-Reads : (what : String) (bs : Bytes) → Reads (read_slice what (length bs)) bs bs
unfolding read_slice
read_slice-Reads what bs r t h = rw (within r bs t h, front r bs t h)

pub read_uint-Reads : (what : String) (n v : ℕ) → v < 256 ^ n → Reads (read_uint what n) (be n v) v
unfolding read_uint
read_uint-Reads what n v small r t h =
    let w = within r (be n v) t h in
    let f = front r (be n v) t h in
    let l = length-be n v in rw (l, rw l at w, rw l at f, of_be-be n v small)

-- A reader in its array is at the end exactly when nothing is left.
pub is_eof-Ahead : (r : Reader) → Ahead r [] → is_eof r ≡ true
unfolding is_eof
is_eof-Ahead r h = ground (arith, ap length h.left, length-drop r.offset r.buffer)

pub is_eof_more : (r : Reader) (b : ℕ) (bs : Bytes) → Ahead r (b ∷ bs) → is_eof r ≡ false
unfolding is_eof
is_eof_more r b bs h = ground (arith, ap length h.left, length-drop r.offset r.buffer)

-- Trailing bytes are refused, and the end of the array is not.
pub run_reader-Reads :
    {A : Type 0} (m : Read A) (bs : Bytes) (v : A) → Reads m bs v → run_reader m bs ≡ ok v
run_reader-Reads m bs v h =
    let all : Ahead (new_reader bs) (bs ++ []) = rw append-nil (new_reader-Ahead bs) in
    rw (h (new_reader bs) [] all, run_reader)
