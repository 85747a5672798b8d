-- ===== src/Frame/Bijection.antt =====
-- The header's codec as a bijection of types.
use std.Equiv.{Iso, iso_to_equiv, IsEquiv}
use mathlib.Core.HLevel.{Σ_prop_path}
use native.Mathlib.Bridge.{le_prop}
use native.Mathlib.Nat.{ℕ_set}
use sockd.Common.{ℕ, ◌≡◌, ap, inl, inr, Bool, true, false, List, [], ◌∷◌, arith, length, All}
use sockd.Common.Words.{IsByte}
use sockd.Outcome.{Result, ok, err, Result-cases}
use sockd.Error.{Error}
use sockd.Frame.{FrameKind, Header, kind_code, encode, decode}
use sockd.Frame.Codec.{IsWord, length-encode, decode-encode, encode-decode}

abbrev is_ok : Result Header Error → Bool
is_ok (ok h) = true
is_ok (err e) = false

-- The headers of the program, whose fields have 16 and 32 bits, and the headers on the wire: twelve
-- bytes that decode accepts.
abbrev WordHeader : Type 0
WordHeader = (h : Header) × IsWord h

pub record IsWire (buf : List ℕ) : Type 0 where
  pub twelve : length buf ≡ 12
  pub bytes : All IsByte buf
  pub accepted : is_ok (decode buf) ≡ true

abbrev WireHeader : Type 0
WireHeader = (buf : List ℕ) × IsWire buf

IsWord-prop : (h : Header) → IsProp (IsWord h)
IsWord-prop h = hlevel le_prop

All-IsByte-prop : (buf : List ℕ) → IsProp (All IsByte buf)
All-IsByte-prop [] = hlevel
All-IsByte-prop (b ∷ buf) = hlevel (le_prop, All-IsByte-prop buf)

IsWire-prop : (buf : List ℕ) → IsProp (IsWire buf)
IsWire-prop buf = hlevel (ℕ_set, All-IsByte-prop buf)

kind_code-IsByte : (k : FrameKind) → IsByte (kind_code k)
unfolding kind_code
kind_code-IsByte k = ground arith

encode-bytes : (h : Header) → All IsByte (encode h)
unfolding encode
encode-bytes h = ground (arith, kind_code-IsByte h.kind)

encode-IsWire : (h : Header) → IsWord h → IsWire (encode h)
encode-IsWire h w = record {
  twelve = length-encode h;
  bytes = encode-bytes h;
  accepted = ap is_ok (decode-encode h w);
}

-- The encoder between the two types.
abbrev encoded : WordHeader → WireHeader
encoded (h, w) = (encode h, encode-IsWire h w)

decoded_cases :
    (buf : List ℕ) → IsWire buf → (h : Header) × (decode buf ≡ ok h) × (encode h ≡ buf) × IsWord h
decoded_cases buf wire = elim (Result-cases (decode buf)) [
  | inl (h, e) ↦ let back = encode-decode buf h wire.twelve wire.bytes e in (h, e, back.0, back.1)
  | inr (e, failed) ↦ absurd (cc (failed, wire.accepted))
]

decoded : WireHeader → WordHeader
decoded (buf, wire) = let (h, e, back, word) = decoded_cases buf wire in (h, word)

encoded_iso : Iso WordHeader WireHeader
unfolding decoded
encoded_iso = record {
  fun = encoded;
  inv = decoded;
  rinv = λ b. Σ_prop_path IsWire-prop (decoded_cases b.0 b.1).2;
  linv = λ a.
      let back = decoded_cases (encode a.0) (encode-IsWire a.0 a.1) in
      Σ_prop_path IsWord-prop (cc (back.1, decode-encode a.0 a.1));
}

-- Encoding is a bijection between the headers whose fields have their widths and the sequences of
-- twelve bytes that decode accepts.
encode_bijective : IsEquiv encoded
unfolding encoded_iso
encode_bijective = (iso_to_equiv encoded_iso).1
