-- ===== src/Frame/Sending.antt =====
-- What `write_frame` puts on a stream.
use mathlib.Core.List.{append_assoc}
use sockd.Common.{ℕ, ◌≤◌, ◌<◌, ◌≡◌, List, ◌++◌, arith, length, lt→ltb}
use sockd.Common.Words.{u32_max}
use sockd.Outcome.{ok, err}
use sockd.Error.{payload_too_large}
use sockd.Frame.{FrameKind, Write, encode, write_frame_with_flags}
use sockd.Frame.Streams.{WritesTo, header_of, wire}

-- A payload whose length does not fit the header is refused, and the stream is not touched.
pub write_frame_refuses :
    {W : Type 0} (writer : Write W) (kind : FrameKind) (flags : ℕ) (payload : List ℕ) (w : W)
    → u32_max < length payload
    → write_frame_with_flags writer kind flags payload w
      ≡ (err (payload_too_large (length payload) u32_max), w)
unfolding write_frame_with_flags
write_frame_refuses writer kind flags payload w h = rw (lt→ltb _ _ h)

module _ {W : Type 0} (writer : Write W) (output : W → List ℕ) (laws : WritesTo writer output) where
  -- Any other payload is sent: the stream holds the frame's bytes behind what it held before.
  pub write_frame_sends :
      (kind : FrameKind) (flags : ℕ) (payload : List ℕ) (w : W)
      → length payload ≤ u32_max
      → ((write_frame_with_flags writer kind flags payload w).0 ≡ ok tt)
        × (output (write_frame_with_flags writer kind flags payload w).1
            ≡ output w ++ wire kind flags payload)
  unfolding write_frame_with_flags wire
  write_frame_sends kind flags payload w h =
      let header = encode (header_of kind flags payload) in
      let w₁ = (writer.write_all header w).1 in
      let w₂ = (writer.write_all payload w₁).1 in
      ground (
        arith,
        laws.written header w,
        laws.appended header w,
        laws.written payload w₁,
        laws.appended payload w₁,
        laws.flushed w₂,
        laws.kept w₂,
        append_assoc (output w) header payload,
      )
