-- ===== src/Frame/Codec.antt =====
-- The header's codec: `encode` and `decode` are inverse to one another.
use sockd.Common.{ℕ, ◌<◌, ◌^◌, ◌≡◌, refl, List, [], ◌∷◌, arith, length, All}
use sockd.Common.Words.{IsByte, from_be_bytes}
use sockd.Outcome.{ok}
use sockd.Frame.{FrameKind, Header, kind_code, kind_of, encode, decode}

pub kind_of-kind_code : (k : FrameKind) → kind_of (kind_code k) ≡ ok k
unfolding kind_of kind_code
kind_of-kind_code k = ground arith

pub kind_code_of_kind_of : (v : ℕ) (k : FrameKind) → kind_of v ≡ ok k → kind_code k ≡ v
unfolding kind_of kind_code
kind_code_of_kind_of v k h = ground arith

pub length-encode : (h : Header) → length (encode h) ≡ 12
unfolding encode
length-encode h = refl

-- The fields of a header are a u16 and a u32.
pub record IsWord (h : Header) : Type 0 where
  pub flags_fit : h.flags < 2 ^ 16
  pub len_fits : h.payload_len < 2 ^ 32

-- A header whose fields fit their widths is read back from its encoding.
pub decode-encode : (h : Header) → IsWord h → decode (encode h) ≡ ok h
unfolding decode encode from_be_bytes
decode-encode h w = rw kind_of-kind_code (ground arith)

-- Twelve bytes that are accepted are the encoding of the header that they are read as.
pub encode-decode :
    (buf : List ℕ) (h : Header)
    → length buf ≡ 12
    → All IsByte buf
    → decode buf ≡ ok h
    → (encode h ≡ buf) × IsWord h
unfolding decode encode from_be_bytes
encode-decode (a ∷ b ∷ c ∷ d ∷ v ∷ k ∷ f ∷ g ∷ p ∷ q ∷ r ∷ s ∷ []) h n bytes e =
    ground (arith, kind_code_of_kind_of k h.kind)
encode-decode _ h n bytes e = absurd (omega arith)
