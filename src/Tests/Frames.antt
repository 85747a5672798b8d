-- ===== src/Tests/Frames.antt =====
-- src/frame.rs at concrete frames.
use sockd.Common.{
  ℕ, ◌≡◌, refl, false, List, [], ◌∷◌, ◌++◌, arith, codes, length, All, ◌≤◌, ◌<◌, ◌^◌,
}
use sockd.Common.Words.{IsByte, from_be_bytes}
use sockd.Outcome.{ok, err}
use sockd.Error.{payload_too_large, invalid_frame_magic}
use sockd.Frame.{FrameKind, encode, decode, read_frame, write_frame}
use sockd.Frame.Streams.{wire}
use sockd.Frame.Receiving.{read_frame_sound, read_frame-oversize}
use sockd.Frame.RoundTrip.{read_frame-write_frame}
use sockd.Tests.Pipe.{
  Pipe, pipe_reader, pipe_writer, incoming_of, outgoing_of, pipe_reader-ReadsFrom,
  pipe_writer-WritesTo, empty,
}
use sockd.Config.{default_max_payload_len}
use sockd.Frame.Partial.{PartialReader, partial_reader, partial_writer}
use sockd.Frame.Partial.Chunks.{partial_round_trip}

abbrev hello : List ℕ
hello = codes "hello world"

-- The test `frame_round_trips_with_partial_io`, over streams in memory.
abbrev sent : Pipe
sent = record { incoming = wire FrameKind.request 0 hello ++ 9 ∷ []; outgoing = [] }

sent_is_written :
    incoming_of sent
    ≡ outgoing_of (write_frame pipe_writer FrameKind.request hello empty).1 ++ 9 ∷ []
unfolding write_frame wire
sent_is_written = refl

read_frame-write_frame_example :
    ((write_frame pipe_writer FrameKind.request hello empty).0 ≡ ok tt)
    × ((read_frame pipe_reader 100 sent).0
        ≡ ok (record { kind = FrameKind.request; flags = 0; payload = hello }))
    × (incoming_of (read_frame pipe_reader 100 sent).1 ≡ 9 ∷ [])
read_frame-write_frame_example =
    read_frame-write_frame pipe_writer outgoing_of pipe_writer-WritesTo pipe_reader incoming_of
      pipe_reader-ReadsFrom 100 FrameKind.request hello (9 ∷ []) empty sent refl (omega arith)
      (omega arith) sent_is_written

-- The test `rejects_invalid_magic`
rejects_invalid_magic :
    decode (0x12 ∷ 0x34 ∷ 0x56 ∷ 0x78 ∷ 1 ∷ 3 ∷ 0 ∷ 0 ∷ 0 ∷ 0 ∷ 0 ∷ 0 ∷ [])
    ≡ err (invalid_frame_magic 0x12345678)
unfolding decode from_be_bytes
rejects_invalid_magic = refl

read_frame-oversize_example :
    ((read_frame pipe_reader 10 sent).0 ≡ err (payload_too_large (length hello) 10))
    × (incoming_of (read_frame pipe_reader 10 sent).1 ≡ hello ++ 9 ∷ [])
read_frame-oversize_example =
    read_frame-oversize pipe_reader incoming_of pipe_reader-ReadsFrom 10 FrameKind.request 0 hello
      (9 ∷ []) sent (omega arith) (omega arith) (omega arith) refl

sent_bytes : All IsByte (incoming_of sent)
unfolding wire encode
sent_bytes = omega arith

read_frame_sound_example :
    (length hello ≤ 100)
    × (0 < 2 ^ 16)
    × (incoming_of sent
        ≡ wire FrameKind.request 0 hello ++ incoming_of (read_frame pipe_reader 100 sent).1)
read_frame_sound_example =
    read_frame_sound pipe_reader incoming_of pipe_reader-ReadsFrom 100
      (record { kind = FrameKind.request; flags = 0; payload = hello }) sent sent_bytes
      (read_frame-write_frame_example.1)

-- The unit test of src/frame.rs: chunks of three bytes and of two.
partial_round_trip_example :
    let sent =
      write_frame partial_writer FrameKind.request
        (codes "hello world")
        (record { content = []; chunk = 3 }) in
    let bytes = sent.1.content in
    let reader : PartialReader = record {
      content = bytes;
      offset = 0;
      chunk = 2;
      panicked = false;
    } in
    (sent.0 ≡ ok tt)
    × (read_frame partial_reader default_max_payload_len reader ≡ (
      ok (record { kind = FrameKind.request; flags = 0; payload = codes "hello world" }),
      record reader { offset = length bytes },
    ))
partial_round_trip_example =
    partial_round_trip default_max_payload_len FrameKind.request (codes "hello world") 6 3 2
      (omega arith) (omega arith) refl (omega arith) (omega arith)
