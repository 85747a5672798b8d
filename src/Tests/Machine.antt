-- ===== src/Tests/Machine.antt =====
-- A machine in memory: regular files, a clock, one stream, and a count of the `on_stop` calls.
use sockd.Common.{
  ℕ, ◌+◌, ◌*◌, refl, false, Option, none, some, List, [], ◌++◌, arith, ◌==◌, leb, length, take,
  drop, codes, if◌then◌else◌,
}
use sockd.Common.Int.{ℤ, pos, negsuc}
use sockd.Text.{Text, same_text, same_text_iff}
use sockd.Text.Decimal.{show}
use sockd.Outcome.{Result, ok, err}
use sockd.Error.{IoError, ErrorKind, FilePath}
use sockd.Frame.{Read, Write}
use sockd.Frame.Streams.{eof}
use sockd.Os.{Os, polled}
use sockd.Pidfile.Files.{IsQuiet, is_some}

pub record Machine : Type 0 where
  pub files : FilePath → Option Text
  pub clock : ℕ
  pub incoming : List ℕ
  pub outgoing : List ℕ
  pub stops : ℕ

abbrev pub io_error : ErrorKind → IoError
io_error k = record { kind = k; message = codes "failed" }

abbrev pub update : (FilePath → Option Text) → FilePath → Option Text → FilePath → Option Text
update files p t q = if same_text p q then t else files q

-- The process 7 runs, and so does what 0 and the negative numbers stand for.
abbrev pub answers : ℤ → Option ℕ
answers (pos n) = if n == 7 then none else if n == 0 then none else some 3
answers (negsuc n) = none

abbrev pub read_result : Option Text → Machine → Result Text IoError × Machine
read_result none m = (err (io_error ErrorKind.not_found), m)
read_result (some t) m = (ok t, m)

abbrev pub remove_result : FilePath → Option Text → Machine → Result (Unit {0}) IoError × Machine
remove_result p none m = (err (io_error ErrorKind.not_found), m)
remove_result p (some t) m = (ok tt, record m { files = update m.files p none })

abbrev pub create_result : FilePath → Option Text → Machine → Result FilePath IoError × Machine
create_result p none m = (ok p, record m { files = update m.files p (some []) })
create_result p (some t) m = (err (io_error ErrorKind.already_exists), m)

abbrev pub write_result :
    FilePath → Text → Option Text → Machine → Result (Unit {0}) IoError × Machine
write_result p t none m = (err (io_error ErrorKind.not_found), m)
write_result p t (some old) m = (ok tt, record m { files = update m.files p (some (old ++ t)) })

abbrev pub stream_reader : Read Machine
stream_reader = record {
  read_exact = λ n m.
      if leb n (length m.incoming)
      then (ok (take n m.incoming), record m { incoming = drop n m.incoming })
      else (err eof, record m { incoming = [] });
}

abbrev pub stream_writer : Write Machine
stream_writer = record {
  write_all = λ bytes m. (ok tt, record m { outgoing = m.outgoing ++ bytes });
  flush = λ m. (ok tt, m);
}

-- Nobody connects: `poll` times out.
abbrev pub machine : Os
machine = record {
  World = Machine;
  Stream = Unit {0};
  Listener = Unit {0};
  File = FilePath;
  Flag = Unit {0};
  parent = λ p. some (codes "/tmp");
  show_duration = show;
  from_utf8_lossy = λ bytes. bytes;
  create_dir_all = λ p m. (ok tt, m);
  exists = λ p m. (is_some (m.files p), m);
  read_to_string = λ p m. read_result (m.files p) m;
  remove_file = λ p m. remove_result p (m.files p) m;
  create_new = λ p m. create_result p (m.files p) m;
  write_file = λ p t m. write_result p t (m.files p) m;
  flush_file = λ p m. (ok tt, m);
  metadata =
      λ p m. if is_some (m.files p) then (ok tt, m) else (err (io_error ErrorKind.not_found), m);
  symlink_is_socket = λ p m. (ok false, m);
  process_id = λ m. 4242;
  kill = λ z signal m. (answers z, m);
  spawn = λ c m. (ok tt, m);
  connect = λ p m. (err (io_error ErrorKind.not_found), m);
  reader = λ s. stream_reader;
  writer = λ s. stream_writer;
  stream_nonblocking = λ s b m. (ok tt, m);
  close = λ s m. m;
  listen = λ p m. (ok tt, m);
  listener_nonblocking = λ l b m. (ok tt, m);
  accept = λ l m. (err (io_error ErrorKind.would_block), m);
  poll = λ l ms m. (polled 0 false, record m { clock = m.clock + 1 + ms * 1_000_000 });
  close_listener = λ l m. m;
  now = λ m. (m.clock, m);
  sleep = λ d m. record m { clock = m.clock + d };
  new_flag = λ m. (tt, m);
  register = λ signal f m. (ok tt, m);
  load = λ f m. (false, m);
}

abbrev pub files_of : Machine → FilePath → Option Text
files_of m = m.files

pub machine-IsQuiet : (p : FilePath) → IsQuiet machine files_of answers 4242 p
machine-IsQuiet path = record {
  path_of = λ p. p;
  handle = λ p m. p;
  absent = λ p. io_error ErrorKind.not_found;
  path_of-handle = λ p m. refl;
  absent_kind = λ p. refl;
  own = λ m. refl;
  own_fits = omega arith;
  probe = λ z m. refl;
  dirs_made = λ d m e. refl;
  dirs_keep = λ d m. refl;
  exists_lem = λ m. refl;
  read_present = λ p t m h. rw h;
  read_absent = λ p m h. rw h;
  removed = λ p t m h. rw h (refl, rw ((same_text_iff p p).1 refl));
  removed_other = λ p q m h. ground (arith, same_text_iff p q);
  created = λ p m h. rw h (refl, rw ((same_text_iff p p).1 refl));
  created_other = λ p q m h. ground (arith, same_text_iff p q);
  written = λ p t old m h. rw h (refl, rw ((same_text_iff p p).1 refl));
  written_other = λ p t q m h. ground (arith, same_text_iff p q);
  flushed = λ p m. refl;
  flush_keeps = λ p m. refl;
}

abbrev pub blank : Machine
blank = record { files = λ p. none; clock = 0; incoming = []; outgoing = []; stops = 0 }
