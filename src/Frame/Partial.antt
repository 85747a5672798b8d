-- ===== src/Frame/Partial.antt =====
-- `PartialReader` and `PartialWriter` of the unit tests in src/frame.rs, and a frame that goes
-- through both. `std` gives `read_exact` by `read` and `write_all` by `write`, in loops.
pub mod Reading
pub mod Chunks
use sockd.Common.{
  ℕ, zero, suc, ◌+◌, ◌-◌, ◌*◌, ◌≤◌, ◌<◌, ◌≡◌, refl, ap, sym, ◌∙◌, Bool, true, false, List, [], ◌∷◌,
  ◌++◌, arith, ltb, leb, ◌==◌, if◌then◌else◌, min, length, take, drop, codes,
}
use sockd.Outcome.{Result, ok, err, pure}
use sockd.Error.{IoError, ErrorKind}
use sockd.Frame.{FrameKind, Frame, Read, Write, read_frame, write_frame}
use sockd.Frame.Streams.{eof, wire}

-- A panic is a flag that is never taken back, and what is returned with it means nothing.
pub record PartialReader : Type 0 where
  pub content : List ℕ
  pub offset : ℕ
  pub chunk : ℕ
  pub panicked : Bool

-- `read` into a buffer of `n` bytes: what is put at its start. `buf[..count]` panics if the buffer
-- is shorter than that.
unfoldable pub read : ℕ → PartialReader → List ℕ × PartialReader
read n r =
    if leb (length r.content) r.offset
    then ([], r)
    else let end = min (length r.content) (r.offset + r.chunk) in
      let count = end - r.offset in
      if ltb n count
      then ([], record r { panicked = true })
      else (take count (drop r.offset r.content), record r { offset = end })

pub record PartialWriter : Type 0 where
  pub content : List ℕ
  pub chunk : ℕ

-- `write`: how many bytes were taken.
unfoldable pub write : List ℕ → PartialWriter → ℕ × PartialWriter
write buf w =
    let count = min (length buf) w.chunk in
    (count, record w { content = w.content ++ take count buf })

-- `read_exact` for the `n` bytes that are left; `acc` are those that have been read. Each round but
-- the last reads a byte, so that `n` rounds are enough.
pub read_exact_loop : ℕ → ℕ → List ℕ → PartialReader → Result (List ℕ) IoError × PartialReader
unfolding read
read_exact_loop zero n acc r = if n == 0 then (ok acc, r) else (err eof, r)
read_exact_loop (suc fuel) n acc r =
    if n == 0
    then (ok acc, r)
    else let (bytes, r') = read n r in
      let rest = read_exact_loop fuel (n - length bytes) (acc ++ bytes) r' in
      if length bytes == 0 then (err eof, r') else rest

-- `WriteZero` is one of the kinds that the crate does not tell apart.
abbrev failed_write : IoError
failed_write = record { kind = ErrorKind.other 0; message = codes "failed to write whole buffer" }

write_all_loop : ℕ → List ℕ → PartialWriter → Result (Unit {0}) IoError × PartialWriter
unfolding write
write_all_loop zero buf w = if length buf == 0 then (ok tt, w) else (err failed_write, w)
write_all_loop (suc fuel) buf w =
    if length buf == 0
    then (ok tt, w)
    else let (count, w') = write buf w in
      let rest = write_all_loop fuel (drop count buf) w' in
      if count == 0 then (err failed_write, w') else rest

unfoldable pub partial_reader : Read PartialReader
unfolding read_exact_loop
partial_reader = record { read_exact = λ n r. read_exact_loop n n [] r }

unfoldable pub partial_writer : Write PartialWriter
unfolding write_all_loop
partial_writer = record { write_all = λ buf w. write_all_loop (length buf) buf w; flush = pure tt }
