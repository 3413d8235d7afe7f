-- ===== src/Tests/Ascii.antt =====
-- An encoder and a decoder for texts of ASCII characters: the platform's, on those.
use fitz_ts.Base.{
  suc, ◌<◌, ◌≡◌, refl, ap, arith, [], ◌∷◌, length, take, take-all, All, ltb, if◌then◌else◌,
}
use fitz_ts.Bytes.{Bytes, IsByte}
use fitz_ts.Buffer.Text.{Utf8, Str}

abbrev pub ascii_encode : Str → Bytes
ascii_encode [] = []
ascii_encode (c ∷ s) = (if ltb c 128 then c else 63) ∷ ascii_encode s

pub length-ascii : (s : Str) → length (ascii_encode s) ≡ length s
length-ascii [] = refl
length-ascii (c ∷ s) = ap suc (length-ascii s)

pub ascii-IsByte : (s : Str) → All IsByte (ascii_encode s)
ascii-IsByte [] = tt
ascii-IsByte (c ∷ s) = (ground arith, ascii-IsByte s)

pub ascii_decode : (s : Str) → All (λ c. c < 128) s → ascii_encode s ≡ s
ascii_decode [] h = refl
ascii_decode (c ∷ s) h = ground (arith, ascii_decode s h.1)

instance abbrev pub ascii : Utf8
ascii = record {
  encode = ascii_encode;
  encode_into = λ s n. take n (ascii_encode s);
  decode = λ bs. bs;
  IsText = λ s. All (λ c. c < 128) s;
  encode-IsByte = ascii-IsByte;
  length-encode-le = λ s. omega (arith, length-ascii s);
  length-le-encode = λ s. omega (arith, length-ascii s);
  encode_into-room = λ s n h. take-all n (ascii_encode s) h;
  decode-encode = ascii_decode;
}
