-- ===== src/Frame/Streams.antt =====
-- What `std::io` documents of `read_exact`, `write_all` and `flush` on a stream that does not fail,
-- and the bytes of a frame on the wire.
use sockd.Common.{ℕ, ◌≤◌, ◌<◌, ◌≡◌, List, ◌++◌, codes, length, take, drop}
use sockd.Outcome.{ok, err}
use sockd.Error.{IoError, unexpected_eof}
use sockd.Frame.{FrameKind, Header, encode, Read, Write}

-- The error of `read_exact` at the end of the input.
abbrev pub eof : IoError
eof = record { kind = unexpected_eof; message = codes "failed to fill whole buffer" }

module _ {W : Type 0} where
  -- `input w` is what `reader` has still to give in the state `w`.
  pub record ReadsFrom (reader : Read W) (input : W → List ℕ) : Type 0 where
    pub given :
        (n : ℕ) (w : W) → n ≤ length (input w) → (reader.read_exact n w).0 ≡ ok (take n (input w))
    pub left :
        (n : ℕ) (w : W) → n ≤ length (input w) → input (reader.read_exact n w).1 ≡ drop n (input w)
    pub at_end : (n : ℕ) (w : W) → length (input w) < n → (reader.read_exact n w).0 ≡ err eof

  -- `output w` is what has been written to `writer` in the state `w`.
  pub record WritesTo (writer : Write W) (output : W → List ℕ) : Type 0 where
    pub written : (bytes : List ℕ) (w : W) → (writer.write_all bytes w).0 ≡ ok tt
    pub appended :
        (bytes : List ℕ) (w : W) → output (writer.write_all bytes w).1 ≡ output w ++ bytes
    pub flushed : (w : W) → (writer.flush w).0 ≡ ok tt
    pub kept : (w : W) → output (writer.flush w).1 ≡ output w

-- The header of a frame, and the frame as bytes: the header, then the payload as it is.
abbrev pub header_of : FrameKind → ℕ → List ℕ → Header
header_of kind flags payload = record { kind = kind; flags = flags; payload_len = length payload }

unfoldable pub wire : FrameKind → ℕ → List ℕ → List ℕ
wire kind flags payload = encode (header_of kind flags payload) ++ payload
