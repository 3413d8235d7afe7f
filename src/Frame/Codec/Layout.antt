-- ===== src/Frame/Codec/Layout.antt =====
-- The bytes of a message, and what the codec does on them.
use fitz_ts.Base.{
  ℕ, zero, suc, ◌+◌, ◌^◌, ◌<◌, ◌≤◌, ◌≡◌, ◌↔◌, refl, sym, ◌∙◌, ap, [], ◌∷◌, ◌++◌, length, replicate,
  false, ok, arith, >>=-ok, append-nil, length-replicate,
}
use fitz_ts.Bytes.{Bytes, be, set_bytes}
use fitz_ts.Bytes.Laws.{set_bytes-append}
use fitz_ts.Frame.Codec.{
  Frame, header_length, default_max_message_bytes, has_reserved, frame_bytes, encode_frame,
}

-- What a frame must satisfy to be sent.
pub record IsSendable (f : Frame) : Type 0 where
  pub message_type_bound : f.message_type < 2 ^ 16
  pub flags_bound : f.flags < 2 ^ 8
  pub flags_known : has_reserved f.flags ≡ false
  pub correlation_bound : f.correlation < 2 ^ 64
  pub size : length f.payload + header_length ≤ default_max_message_bytes

abbrev pub header : ℕ → ℕ → ℕ → ℕ → Bytes
header message_type flags correlation size =
    be 2 message_type ++ (be 1 flags ++ (be 8 correlation ++ be 4 size))

-- The message of a frame.
abbrev pub wire : Frame → Bytes
wire f = header f.message_type f.flags f.correlation (length f.payload) ++ f.payload

pub length-wire : (f : Frame) → length (wire f) ≡ header_length + length f.payload
length-wire f = omega arith

replicate-add : (m n : ℕ) → replicate (m + n) 0 ≡ replicate {A = ℕ} m 0 ++ replicate n 0
replicate-add zero n = ap (λ k. replicate k 0) (omega arith)
replicate-add (suc m) n =
    let e : suc m + n ≡ suc (m + n) = omega arith in rw e (ap (◌∷◌ 0) (replicate-add m n))

payload_step :
    (done room payload : Bytes)
    → header_length ≡ length done
    → length room ≡ length payload
    → set_bytes (done ++ room) header_length payload ≡ ok (done ++ payload)
payload_step done room payload e f =
    let whole = set_bytes-append done room [] payload header_length e f in
    rw (append-nil room, append-nil payload) at whole

frame_bytes-wire : (f : Frame) → frame_bytes f ≡ ok (wire f)
unfolding frame_bytes
frame_bytes-wire f =
    let n = length f.payload in
    let room = replicate {A = ℕ} n 0 in
    let m = be 2 f.message_type in
    let g = be 1 f.flags in
    let c = be 8 f.correlation in
    rw (replicate-add header_length n) (
      >>=-ok _ _ (m ++ (replicate 13 0 ++ room))
        (set_bytes-append [] (0 ∷ 0 ∷ []) (replicate 13 0 ++ room) m 0 refl refl)
        (>>=-ok _ _ (m ++ (g ++ (replicate 12 0 ++ room)))
          (set_bytes-append m (0 ∷ []) (replicate 12 0 ++ room) g 2 refl refl)
          (>>=-ok _ _ (m ++ (g ++ (c ++ (replicate 4 0 ++ room))))
            (set_bytes-append (m ++ g) (replicate 8 0) (replicate 4 0 ++ room) c 3 refl refl)
            (>>=-ok _ _ (m ++ (g ++ (c ++ (be 4 n ++ room))))
              (set_bytes-append (m ++ (g ++ c)) (replicate 4 0) room (be 4 n) 11 refl refl)
              (payload_step (m ++ (g ++ (c ++ be 4 n))) room f.payload refl
                (length-replicate n 0))))))

-- Sendable frames are written in this layout.
pub encode_frame-wire : (f : Frame) → IsSendable f → encode_frame f ≡ ok (wire f)
unfolding encode_frame
encode_frame-wire f s = ground (arith, frame_bytes-wire f)

encode_frame-IsSendable : (f : Frame) (bs : Bytes) → encode_frame f ≡ ok bs → IsSendable f
unfolding encode_frame
encode_frame-IsSendable f bs e = ground arith

-- `encodeFrame` returns bytes exactly for the frames whose type, flags, correlation and size are in
-- their bounds, with no reserved flag, and they are always the type in two bytes, the flags in one,
-- the correlation in eight and the length of the payload in four, and the payload.
pub encode_frame-wire_iff :
    (f : Frame) (bs : Bytes) → (encode_frame f ≡ ok bs) ↔ (IsSendable f × (bs ≡ wire f))
encode_frame-wire_iff f bs = (
  λ e. let s = encode_frame-IsSendable f bs e in (s, ok_injective (sym e ∙ encode_frame-wire f s)),
  λ h. encode_frame-wire f h.0 ∙ ap ok (sym h.1),
)
  where
    ok_injective : {xs ys : Bytes} → ok xs ≡ ok ys → xs ≡ ys
    ok_injective h = cc
