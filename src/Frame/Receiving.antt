-- ===== src/Frame/Receiving.antt =====
-- What `read_frame` takes from a stream.
use mathlib.Core.List.{append_assoc}
use native.Mathlib.Decide.{dec_le}
use sockd.Common.{
  ℕ, ◌≤◌, ◌<◌, ◌^◌, ◌≡◌, ap, sym, inl, inr, ◌∙◌, List, ◌++◌, arith, length, take, drop, All,
  All-take, length-append, take-append, drop-append, take-append-drop, length-take,
}
use sockd.Common.Words.{IsByte, u32_max}
use sockd.Outcome.{ok, err, Result-cases}
use sockd.Error.{io, payload_too_large}
use sockd.Frame.{FrameKind, Frame, Header, Read, header_len, encode, decode, read_frame}
use sockd.Frame.Codec.{decode-encode, encode-decode}
use sockd.Frame.Streams.{ReadsFrom, header_of, wire, eof}

module _ {W : Type 0} (reader : Read W) (input : W → List ℕ) (laws : ReadsFrom reader input) where
  prefix_read :
      (xs ys : List ℕ) (w : W)
      → input w ≡ xs ++ ys
      → ((reader.read_exact (length xs) w).0 ≡ ok xs)
        × (input (reader.read_exact (length xs) w).1 ≡ ys)
  prefix_read xs ys w e =
      let fits : length xs ≤ length (input w) = rw e (omega (arith, length-append xs ys)) in
      (
        laws.given (length xs) w fits ∙ rw e (rw take-append),
        laws.left (length xs) w fits ∙ rw e (drop-append xs ys),
      )

  -- The header of a frame on the stream is read, and the rest of the stream is left.
  header_read :
      (kind : FrameKind) (flags : ℕ) (payload rest : List ℕ) (w : W)
      → input w ≡ wire kind flags payload ++ rest
      → ((reader.read_exact 12 w).0 ≡ ok (encode (header_of kind flags payload)))
        × (input (reader.read_exact 12 w).1 ≡ payload ++ rest)
  unfolding wire encode
  header_read kind flags payload rest w e =
      prefix_read (encode (header_of kind flags payload)) (payload ++ rest) w
        (e ∙ append_assoc (encode (header_of kind flags payload)) payload rest)

  -- A frame on the stream whose payload is within the limit is read as it was sent, and nothing
  -- behind it is taken.
  pub read_frame-wire :
      (max : ℕ) (kind : FrameKind) (flags : ℕ) (payload rest : List ℕ) (w : W)
      → flags < 2 ^ 16
      → length payload ≤ u32_max
      → length payload ≤ max
      → input w ≡ wire kind flags payload ++ rest
      → ((read_frame reader max w).0
          ≡ ok (record { kind = kind; flags = flags; payload = payload }))
        × (input (read_frame reader max w).1 ≡ rest)
  unfolding read_frame
  read_frame-wire max kind flags payload rest w ff fl fm e =
      let h = header_read kind flags payload rest w e in
      let w₁ = (reader.read_exact 12 w).1 in
      let p = prefix_read payload rest w₁ h.1 in
      ground (arith, h.0, decode-encode (header_of kind flags payload) (omega arith), p.0, p.1)

  -- A frame whose payload passes the limit is refused with both lengths. Its header is taken from
  -- the stream, and its payload is not.
  pub read_frame-oversize :
      (max : ℕ) (kind : FrameKind) (flags : ℕ) (payload rest : List ℕ) (w : W)
      → flags < 2 ^ 16
      → length payload ≤ u32_max
      → max < length payload
      → input w ≡ wire kind flags payload ++ rest
      → ((read_frame reader max w).0 ≡ err (payload_too_large (length payload) max))
        × (input (read_frame reader max w).1 ≡ payload ++ rest)
  unfolding read_frame
  read_frame-oversize max kind flags payload rest w ff fl fm e =
      let h = header_read kind flags payload rest w e in
      ground (arith, h.0, h.1, decode-encode (header_of kind flags payload) (omega arith))

  -- A stream that ends within the header gives the error of `read_exact`.
  pub read_frame-truncated_header :
      (max : ℕ) (w : W) → length (input w) < header_len → (read_frame reader max w).0 ≡ err (io eof)
  unfolding read_frame
  read_frame-truncated_header max w h = ground (arith, laws.at_end 12 w h)

  -- Within the payload too.
  pub read_frame-truncated_payload :
      (max : ℕ) (kind : FrameKind) (flags : ℕ) (payload lost : List ℕ) (w : W)
      → flags < 2 ^ 16
      → length (payload ++ lost) ≤ u32_max
      → length (payload ++ lost) ≤ max
      → 0 < length lost
      → input w ≡ encode (header_of kind flags (payload ++ lost)) ++ payload
      → (read_frame reader max w).0 ≡ err (io eof)
  unfolding read_frame encode
  read_frame-truncated_payload max kind flags payload lost w ff fl fm fp e =
      let header = header_of kind flags (payload ++ lost) in
      let h = prefix_read (encode header) payload w e in
      let w₁ = (reader.read_exact 12 w).1 in
      let n = length (payload ++ lost) in
      let short : length (input w₁) < n = rw h.1 (omega (arith, length-append payload lost)) in
      ground (arith, h.0, decode-encode header (omega arith), laws.at_end n w₁ short)

  -- A header and the bytes behind it, as the frame that they make.
  wire_of_header :
      (h : Header) (bytes more : List ℕ)
      → h.payload_len ≤ length more
      → bytes ≡ encode h ++ more
      → bytes ≡ wire h.kind h.flags (take h.payload_len more) ++ drop h.payload_len more
  unfolding wire
  wire_of_header h bytes more fits e =
      let n = h.payload_len in
      let same : length (take n more) ≡ n = omega (arith, length-take n more) in
      rw same (
        e
        ∙ ap (λ l. encode h ++ l) (sym (take-append-drop n more))
        ∙ sym (append_assoc (encode h) (take n more) (drop n more)))

  -- What is accepted is a frame: its bytes stood at the head of the stream, nothing else was
  -- taken, and its payload is within the limit.
  pub read_frame_sound :
      (max : ℕ) (f : Frame) (w : W)
      → All IsByte (input w)
      → (read_frame reader max w).0 ≡ ok f
      → (length f.payload ≤ max)
        × (f.flags < 2 ^ 16)
        × (input w ≡ wire f.kind f.flags f.payload ++ input (read_frame reader max w).1)
  unfolding read_frame
  read_frame_sound max f w bytes e = elim (dec_le 12 (length (input w))) [
    | no short ↦ absurd (ground (arith, laws.at_end 12 w (omega arith)))
    | yes long ↦ elim (Result-cases (decode (take 12 (input w)))) [
      | inr (bad, d) ↦ absurd (ground (arith, laws.given 12 w long))
      | inl (h, d) ↦
          let w₁ = (reader.read_exact 12 w).1 in
          elim (dec_le h.payload_len (length (input w₁))) [
            | no cut ↦
                absurd
                  (ground (arith, laws.given 12 w long, laws.at_end h.payload_len w₁ (omega arith)))
            | yes fits ↦
                let buf = take 12 (input w) in
                let canonical =
                  encode-decode buf h (omega (arith, length-take 12 (input w)))
                    (All-take IsByte 12 (input w) bytes) d in
                let split : input w ≡ encode h ++ input w₁ =
                  rw (canonical.0, laws.left 12 w long) (sym (take-append-drop 12 (input w))) in
                ground (
                  arith,
                  laws.given 12 w long,
                  laws.given h.payload_len w₁ fits,
                  laws.left h.payload_len w₁ fits,
                  length-take h.payload_len (input w₁),
                  wire_of_header h (input w) (input w₁) fits split,
                  canonical.1.flags_fit,
                )
          ]
    ]
  ]
