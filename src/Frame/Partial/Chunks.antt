-- ===== src/Frame/Partial/Chunks.antt =====
-- Frames through a reader and a writer that take a few bytes at a time.
use mathlib.Core.List.{append_assoc, append-nil}
use sockd.Common.{
  ℕ, zero, suc, ◌+◌, ◌*◌, ◌≤◌, ◌<◌, ◌≡◌, refl, sym, ◌∙◌, false, List, [], ◌∷◌, ◌++◌, arith, ltb,
  ◌==◌, min, length, take, drop, length-drop, take-length, take-append-drop,
}
use sockd.Common.Words.{u32_max}
use sockd.Outcome.{ok}
use sockd.Frame.{FrameKind, Read, encode, read_frame, write_frame, write_frame_with_flags}
use sockd.Frame.Streams.{header_of, wire}
use sockd.Frame.Codec.{decode-encode}
use sockd.Frame.Partial.{
  PartialReader, PartialWriter, write, read_exact_loop, write_all_loop, partial_reader,
  partial_writer,
}
use sockd.Frame.Partial.Reading.{read_exact_chunks, read_exact_last}

-- What is written a few bytes at a time is all written.
write_all_lem :
    (fuel : ℕ) (buf : List ℕ) (w : PartialWriter)
    → 0 < w.chunk
    → length buf ≤ fuel
    → write_all_loop fuel buf w ≡ (ok tt, record w { content = w.content ++ buf })
unfolding write_all_loop write
write_all_lem zero [] w h f = rw append-nil
write_all_lem (suc fuel) [] w h f = rw append-nil
write_all_lem zero (b ∷ buf) w h f = elim f [ ]
write_all_lem (suc fuel) (b ∷ buf) w h f =
    let all = b ∷ buf in
    let count = min (length all) w.chunk in
    let taken : (count == 0) ≡ false = ground arith in
    let left : (length all == 0) ≡ false = ground arith in
    let shorter : length (drop count all) ≤ fuel = omega (arith, length-drop count all) in
    let rest =
      write_all_lem fuel (drop count all) (record w { content = w.content ++ take count all }) h
        shorter in
    let whole = append_assoc w.content (take count all) (drop count all) in
    rw (left, taken, rest, whole, take-append-drop count all) refl

written_lem :
    (kind : FrameKind) (payload : List ℕ) (w : PartialWriter)
    → 0 < w.chunk
    → length payload ≤ u32_max
    → write_frame partial_writer kind payload w
      ≡ (ok tt, record w { content = w.content ++ wire kind 0 payload })
unfolding write_frame write_frame_with_flags partial_writer wire
written_lem kind payload w h f =
    let fits : ltb u32_max (length payload) ≡ false = ground arith in
    let header = encode (header_of kind 0 payload) in
    let first = write_all_lem (length header) header w h (omega arith) in
    let second =
      write_all_lem (length payload) payload (record w { content = w.content ++ header }) h
        (omega arith) in
    rw (fits, first, second, append_assoc w.content header payload) refl

-- A frame in two reads.
read_frame_lem :
    {W : Type 0} (reader : Read W) (max : ℕ) (kind : FrameKind) (payload : List ℕ) (w w₁ w₂ : W)
    → length payload ≤ u32_max
    → length payload ≤ max
    → reader.read_exact 12 w ≡ (ok (encode (header_of kind 0 payload)), w₁)
    → reader.read_exact (length payload) w₁ ≡ (ok payload, w₂)
    → read_frame reader max w ≡ (ok (record { kind = kind; flags = 0; payload = payload }), w₂)
unfolding read_frame
read_frame_lem reader max kind payload w w₁ w₂ fl fm first second =
    let fits : ltb max (length payload) ≡ false = ground arith in
    let decoded = decode-encode (header_of kind 0 payload) (omega arith) in
    rw (first, decoded, fits, second) refl

read_exact_lem :
    (n : ℕ) (r : PartialReader) → partial_reader.read_exact n r ≡ read_exact_loop n n [] r
unfolding partial_reader
read_exact_lem n r = refl

factor-le : (m d n : ℕ) → 0 < d → m * d ≡ n → m ≤ n
factor-le m zero n h e = absurd (omega arith)
factor-le m (suc d) n h e = grind arith

module _ (max : ℕ) (kind : FrameKind) (payload : List ℕ) (m d : ℕ) (moves : 0 < d) (e : m * d ≡ 12)
    (fl : length payload ≤ u32_max) (fm : length payload ≤ max) where
  abbrev start : PartialReader
  start = record { content = wire kind 0 payload; offset = 0; chunk = d; panicked = false }

  read_header :
      partial_reader.read_exact 12 start
      ≡ (ok (encode (header_of kind 0 payload)), record start { offset = 12 })
  unfolding wire encode
  read_header =
      read_exact_lem 12 start
      ∙ read_exact_chunks (wire kind 0 payload) d moves m 12 12 0 [] (factor-le m d 12 moves e)
          (sym e) (omega arith)

  read_payload :
      partial_reader.read_exact (length payload) (record start { offset = 12 })
      ≡ (ok payload, record start { offset = length (wire kind 0 payload) })
  unfolding wire encode
  read_payload =
      let bytes = wire kind 0 payload in
      let end : 12 + length payload ≡ length bytes = omega arith in
      read_exact_lem (length payload) (record start { offset = 12 })
      ∙ read_exact_last bytes d moves (length payload) (length payload) 12 [] (omega arith) end
      ∙ rw (take-length payload, end) refl

-- A frame that is written through a `PartialWriter` is read back by a `PartialReader`, however few
-- bytes either moves at a time, if the reader's chunks make up the twelve bytes of the header and
-- the payload fits a u32 and the limit. The reader is then at the end, and it has not panicked.
pub partial_round_trip :
    (max : ℕ) (kind : FrameKind) (payload : List ℕ) (m chunk chunk' : ℕ)
    → 0 < chunk
    → 0 < chunk'
    → m * chunk' ≡ 12
    → length payload ≤ u32_max
    → length payload ≤ max
    → let sent = write_frame partial_writer kind payload (record { content = []; chunk = chunk }) in
      let bytes = sent.1.content in
      let reader : PartialReader = record {
        content = bytes;
        offset = 0;
        chunk = chunk';
        panicked = false;
      } in
      (sent.0 ≡ ok tt)
      × (read_frame partial_reader max reader ≡ (
        ok (record { kind = kind; flags = 0; payload = payload }),
        record reader { offset = length bytes },
      ))
partial_round_trip max kind payload m chunk chunk' h₁ h₂ e fl fm =
    let sent = written_lem kind payload (record { content = []; chunk = chunk }) h₁ fl in
    let received =
      read_frame_lem partial_reader max kind payload (start max kind payload m chunk' h₂ e fl fm) _
        _ fl fm (read_header max kind payload m chunk' h₂ e fl fm)
        (read_payload max kind payload m chunk' h₂ e fl fm) in
    rw sent (refl, received)
