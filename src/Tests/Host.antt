-- ===== src/Tests/Host.antt =====
-- A machine that is nothing but the path of a PID file, that of a socket, and a clock.
use sockd.Common.{
  ℕ, ◌+◌, ◌*◌, ◌==◌, refl, suc, Bool, false, Option, none, some, [], ◌++◌, arith, codes, length,
  if◌then◌else◌,
}
use sockd.Common.Int.{as_i32}
use sockd.Common.Interleaving.{update}
use sockd.Text.Decimal.{show}
use sockd.Outcome.{Result, ok, err}
use sockd.Error.{ErrorKind, FilePath, IoError}
use sockd.Text.{Text}
use sockd.Os.{Os, polled}
use sockd.Pidfile.{alive_of}
use sockd.Pidfile.Files.{is_some}
use sockd.Pidfile.Claimants.{Disk}
use sockd.Pidfile.Steps.{HasDisk}
use sockd.Socket.Binders.{Found, Site, is_there, with_socket}
use sockd.Socket.Runs.{is_socket, HasSite}
use sockd.Tests.Machine.{io_error, answers}

pub record Host : Type 0 where
  pub disk : Disk
  pub site : Site
  pub clock : ℕ

abbrev pub pid_path : FilePath
pid_path = codes "pid"

abbrev pub socket_path : FilePath
socket_path = codes "socket"

-- Whatever is not as long as the path of the PID file is the path of the socket.
abbrev is_pid : FilePath → Bool
is_pid p = length p == 3

abbrev absent : {A : Type 0} → Result A IoError
absent = err (io_error ErrorKind.not_found)

abbrev read_at : Option ℕ → Disk → Result Text IoError
read_at none d = absent
read_at (some n) d = ok (d.content n)

abbrev file_removed : Option ℕ → Disk → Result (Unit {0}) IoError × Disk
file_removed none d = (absent, d)
file_removed (some n) d = (ok tt, record d { file = none })

abbrev file_made : Option ℕ → Disk → Result ℕ IoError × Disk
file_made none d = (
  ok d.next,
  record { file = some d.next; content = update d.content d.next []; next = suc d.next },
)
file_made (some n) d = (err (io_error ErrorKind.already_exists), d)

abbrev node_removed : Found → Site → Result (Unit {0}) IoError × Site
node_removed Found.nothing d = (absent, d)
node_removed _ d = (ok tt, record d { at_path = Found.nothing })

abbrev reached_at : Found → Site → Result (Unit {0}) IoError
reached_at Found.nothing d = absent
reached_at (Found.a_socket n) d =
    if d.listened_on n then ok tt else err (io_error ErrorKind.connection_refused)
reached_at Found.something_else d = err (io_error ErrorKind.connection_refused)

abbrev on_disk : {A : Type 0} → A × Disk → Host → A × Host
on_disk (a, d) h = (a, record h { disk = d })

abbrev on_site : {A : Type 0} → A × Site → Host → A × Host
on_site (a, d) h = (a, record h { site = d })

-- A client never comes, and a `poll` takes its time.
abbrev pub host : Os
host = record {
  World = Host;
  Stream = Unit {0};
  Listener = ℕ;
  File = ℕ;
  Flag = Unit {0};
  parent = λ p. some (codes "/tmp");
  show_duration = show;
  from_utf8_lossy = λ bytes. bytes;
  create_dir_all = λ p h. (ok tt, h);
  exists = λ p h. (if is_pid p then is_some h.disk.file else is_there h.site.at_path, h);
  read_to_string = λ p h. (if is_pid p then read_at h.disk.file h.disk else absent, h);
  remove_file = λ p h.
      if is_pid p
      then on_disk (file_removed h.disk.file h.disk) h
      else on_site (node_removed h.site.at_path h.site) h;
  create_new = λ p h. on_disk (file_made h.disk.file h.disk) h;
  write_file = λ n t h. (
    ok tt,
    record h { disk = record h.disk { content = update h.disk.content n (h.disk.content n ++ t) } },
  );
  flush_file = λ n h. (ok tt, h);
  metadata = λ p h. (ok tt, h);
  symlink_is_socket = λ p h. (ok (is_socket h.site.at_path), h);
  process_id = λ h. 4242;
  kill = λ z signal h. (answers z, h);
  spawn = λ c h. (ok tt, h);
  connect = λ p h. (reached_at h.site.at_path h.site, h);
  reader = λ s. record { read_exact = λ n h. (absent, h) };
  writer = λ s. record { write_all = λ bytes h. (absent, h); flush = λ h. (absent, h) };
  stream_nonblocking = λ s b h. (ok tt, h);
  close = λ s h. h;
  listen = λ p h. (ok h.site.next, record h { site = with_socket h.site });
  listener_nonblocking = λ l b h. (ok tt, h);
  accept = λ l h. (err (io_error ErrorKind.would_block), h);
  poll = λ l ms h. (polled 0 false, record h { clock = h.clock + 1 + ms * 1_000_000 });
  close_listener =
      λ l h. record h { site = record h.site { listened_on = update h.site.listened_on l false } };
  now = λ h. (h.clock, h);
  sleep = λ d h. record h { clock = h.clock + d };
  new_flag = λ h. (tt, h);
  register = λ signal f h. (ok tt, h);
  load = λ f h. (false, h);
}

abbrev pub disk_of : Host → Disk
disk_of h = h.disk

abbrev pub site_of : Host → Site
site_of h = h.site

abbrev pub runs : ℕ → Bool
runs p = alive_of host (answers (as_i32 p))

pub host-HasDisk : HasDisk host pid_path disk_of runs 4242
host-HasDisk = record {
  answer = λ p. answers (as_i32 p);
  handle = λ n. n;
  absent = io_error ErrorKind.not_found;
  absent_kind = refl;
  answers = λ p. refl;
  own = λ h. refl;
  probe = λ p h. refl;
  dirs_made = λ d h e. refl;
  dirs_keep = λ d h e. refl;
  exists_lem = λ h. refl;
  read_one = λ n h e. ground (arith, e);
  read_none = λ h e. ground (arith, e);
  removed = λ n h e. ground (arith, e);
  not_removed = λ h e. ground (arith, e);
  made = λ h e. ground (arith, e);
  wrote = λ n t h. (refl, refl);
  flushed = λ n h. (refl, refl);
}

pub host-HasSite : HasSite host socket_path site_of
host-HasSite = record {
  handle = λ n. n;
  stream = tt;
  unreachable = io_error ErrorKind.connection_refused;
  absent = io_error ErrorKind.not_found;
  unreachable_kind = refl;
  absent_kind = refl;
  dirs_made = λ d h e. refl;
  dirs_keep = λ d h e. refl;
  exists_lem = λ h. refl;
  looked = λ h e. refl;
  connected = λ n h e live. ground (arith, e, live);
  not_connected = λ n h e stale. ground (arith, e, stale);
  closed = λ s h. refl;
  removed = λ h e. ground (arith, e);
  not_removed = λ h e. ground (arith, e);
  listens = λ h e. (refl, refl);
  unblocked = λ n h. refl;
  dropped = λ n h. refl;
}
