-- ===== src/Tests/Pipe.antt =====
-- A stream in memory: `&[u8]` as the reader and `Vec<u8>` as the writer of `std::io`.
use sockd.Common.{ℕ, refl, List, [], ◌++◌, arith, length, take, drop, leb, if◌then◌else◌}
use sockd.Outcome.{ok, err}
use sockd.Frame.{Read, Write}
use sockd.Frame.Streams.{eof, ReadsFrom, WritesTo}

pub record Pipe : Type 0 where
  pub incoming : List ℕ
  pub outgoing : List ℕ

abbrev pub pipe_reader : Read Pipe
pipe_reader = record {
  read_exact = λ n p.
      if leb n (length p.incoming)
      then (ok (take n p.incoming), record p { incoming = drop n p.incoming })
      else (err eof, record p { incoming = [] });
}

abbrev pub pipe_writer : Write Pipe
pipe_writer = record {
  write_all = λ bytes p. (ok tt, record p { outgoing = p.outgoing ++ bytes });
  flush = λ p. (ok tt, p);
}

abbrev pub incoming_of : Pipe → List ℕ
incoming_of p = p.incoming

abbrev pub outgoing_of : Pipe → List ℕ
outgoing_of p = p.outgoing

pub pipe_reader-ReadsFrom : ReadsFrom pipe_reader incoming_of
pipe_reader-ReadsFrom = record {
  given = λ n p h. ground arith;
  left = λ n p h. ground arith;
  at_end = λ n p h. ground arith;
}

pub pipe_writer-WritesTo : WritesTo pipe_writer outgoing_of
pipe_writer-WritesTo = record {
  written = λ bytes p. refl;
  appended = λ bytes p. refl;
  flushed = λ p. refl;
  kept = λ p. refl;
}

abbrev pub empty : Pipe
empty = record { incoming = []; outgoing = [] }
