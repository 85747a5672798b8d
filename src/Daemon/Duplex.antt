-- ===== src/Daemon/Duplex.antt =====
-- The contract of a connected stream: what can be read from it and what has been written to it, as
-- views of the machine's state.
use sockd.Common.{ℕ, ◌≡◌, List}
use sockd.Frame.Streams.{ReadsFrom, WritesTo}
use sockd.Os.{Os}

pub record IsDuplex (os : Os) (s : os.Stream) (input output : os.World → List ℕ) : Type 0 where
  pub reading : ReadsFrom (os.reader s) input
  pub writing : WritesTo (os.writer s) output
  pub read_keeps : (n : ℕ) (w : os.World) → output ((os.reader s).read_exact n w).1 ≡ output w
  pub close_keeps : (w : os.World) → output (os.close s w) ≡ output w
