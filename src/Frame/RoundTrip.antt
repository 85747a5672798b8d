-- ===== src/Frame/RoundTrip.antt =====
-- A frame that `write_frame` sends is the frame that `read_frame` receives.
use sockd.Common.{ℕ, ◌≤◌, ◌≡◌, ◌∙◌, ap, List, [], ◌++◌, arith, length}
use sockd.Common.Words.{u32_max}
use sockd.Outcome.{ok}
use sockd.Frame.{FrameKind, Read, Write, read_frame, write_frame}
use sockd.Frame.Streams.{ReadsFrom, WritesTo, wire}
use sockd.Frame.Sending.{write_frame_sends}
use sockd.Frame.Receiving.{read_frame-wire}

module _ {V W : Type 0} (writer : Write V) (output : V → List ℕ) (writing : WritesTo writer output)
    (reader : Read W) (input : W → List ℕ) (reading : ReadsFrom reader input) where
  -- Over any writer and any reader that keep to the contracts of `std::io`: if the reader gets what
  -- was written to an empty stream, with any bytes behind it, and the payload fits a u32 and the
  -- reader's limit, then the frame is written, is read back with flags 0, and the bytes behind it
  -- are left on the stream.
  pub read_frame-write_frame :
      (max : ℕ) (kind : FrameKind) (payload rest : List ℕ) (v : V) (w : W)
      → output v ≡ []
      → length payload ≤ u32_max
      → length payload ≤ max
      → input w ≡ output (write_frame writer kind payload v).1 ++ rest
      → ((write_frame writer kind payload v).0 ≡ ok tt)
        × ((read_frame reader max w).0 ≡ ok (record { kind = kind; flags = 0; payload = payload }))
        × (input (read_frame reader max w).1 ≡ rest)
  unfolding write_frame
  read_frame-write_frame max kind payload rest v w empty fl fm e =
      let s = write_frame_sends writer output writing kind 0 payload v fl in
      let stored = e ∙ ap (λ l. l ++ rest) (s.1 ∙ ap (λ l. l ++ wire kind 0 payload) empty) in
      let r =
        read_frame-wire reader input reading max kind 0 payload rest w (omega arith) fl fm stored in
      (s.0, r.0, r.1)
