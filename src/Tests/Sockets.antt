-- ===== src/Tests/Sockets.antt =====
-- src/socket.rs on the machine in memory.
use mathlib.Core.Path.{subst}
use sockd.Common.{
  ◌≡◌, ◌≢◌, ◌==◌, refl, sym, ◌⊎◌, inl, inr, Bool, Bool-cases, true, false, Option, none, some, [],
  ◌∷◌, arith, codes, if◌then◌else◌,
}
use sockd.Text.{Text}
use sockd.Outcome.{Result, ok, err}
use sockd.Error.{IoError, ErrorKind, FilePath}
use sockd.Os.{Os}
use sockd.Socket.{bind}
use sockd.Socket.Nodes.{Node, is_socket, MayBeDir, Within, HasNodes}
use sockd.Socket.Binding.{IsAbove, bind_lem}
use sockd.Text.{same_text, same_text_iff}
use sockd.Tests.Machine.{Machine, machine, update, io_error, blank}

-- A directory is a file that holds a slash, and a socket one that holds the number of its listeners.
abbrev node_of : Option Text → Node
node_of none = Node.absent
node_of (some []) = Node.other
node_of (some (c ∷ _)) =
    if c == b'/' then Node.directory else if c == 0 then Node.stale else Node.live

abbrev nodes : Machine → FilePath → Node
nodes m p = node_of (m.files p)

abbrev answer_at : Node → Result (Unit {0}) IoError
answer_at Node.live = ok tt
answer_at _ = err (io_error ErrorKind.connection_refused)

-- All paths are in the one directory /tmp.
abbrev root : FilePath
root = codes "/tmp"

abbrev is_free : Node → Bool
is_free Node.absent = true
is_free Node.directory = true
is_free _ = false

abbrev with_dir : Machine → FilePath → Machine
with_dir m d = record m { files = update m.files d (some (b'/' ∷ [])) }

abbrev with_sockets : Os
with_sockets = record machine {
  parent = λ p. if same_text p root then none else some root;
  create_dir_all = λ d m.
      if is_free (nodes m d)
      then if is_free (nodes m root)
        then (ok tt, with_dir (with_dir m d) root)
        else (err (io_error ErrorKind.already_exists), m)
      else (err (io_error ErrorKind.already_exists), m);
  symlink_is_socket = λ p m. (ok (is_socket (nodes m p)), m);
  connect = λ p m. (answer_at (nodes m p), m);
  listen = λ p m. (ok tt, record m { files = update m.files p (some (1 ∷ [])) });
}

same : (p : FilePath) → same_text p p ≡ true
same p = (same_text_iff p p).1 refl

is_free_lem : (n : Node) → MayBeDir n → is_free n ≡ true
is_free_lem Node.absent h = refl
is_free_lem Node.directory h = refl
is_free_lem Node.stale h = absurd h
is_free_lem Node.live h = absurd h
is_free_lem Node.other h = absurd h

Within-root : (p : FilePath) → Within with_sockets root p → p ≡ root
Within-root p Within.itself = refl
Within-root p (Within.above e within) = absurd (ground (arith, same root))

in_root : (d p : FilePath) → d ≡ root → Within with_sockets d p → p ≡ root
in_root d p at_root within = Within-root p (subst (λ x. Within with_sockets x p) at_root within)

parent_lem :
    (d e : FilePath) → with_sockets.parent d ≡ some e → (same_text d root ≡ false) × (e ≡ root)
parent_lem d e h = elim (Bool-cases (same_text d root)) [
  | inl at_root ↦ absurd (ground (arith, h, at_root))
  | inr below ↦ (below, ground (arith, h, below))
]

Within-cases : (d p : FilePath) → Within with_sockets d p → (p ≡ d) ⊎ (p ≡ root)
Within-cases d p Within.itself = inl refl
Within-cases d p (Within.above {e = parent} e within) =
    inr (in_root parent p (parent_lem d parent e).1 within)

root-Within : (d : FilePath) → Within with_sockets d root
root-Within d = elim (Bool-cases (same_text d root)) [
  | inl at_root ↦ rw ((same_text_iff d root).0 at_root) Within.itself
  | inr below ↦ Within.above (rw below refl) Within.itself
]

above_self : (p d : FilePath) → with_sockets.parent p ≡ some d → ¬ Within with_sockets d p
above_self p d e within =
    let parent = parent_lem p d e in
    let at_root = in_root d p parent.1 within in
    ground (arith, parent.0, (same_text_iff p root).1 at_root)

dirs_made :
    (d : FilePath) (m : Machine)
    → ((p : FilePath) → Within with_sockets d p → MayBeDir (nodes m p))
    → let made = with_sockets.create_dir_all d m in
      (made.0 ≡ ok tt)
      × ((p : FilePath) → Within with_sockets d p → nodes made.1 p ≡ Node.directory)
dirs_made d m free =
    let here : is_free (nodes m d) ≡ true = is_free_lem (nodes m d) (free d Within.itself) in
    let there : is_free (nodes m root) ≡ true =
      is_free_lem (nodes m root) (free root (root-Within d)) in
    rw (here, there)
      (
        refl,
        λ p within. elim (Within-cases d p within) [
          | inl e ↦ rw e (ground (arith, same d))
          | inr e ↦ rw e refl
        ],
      )

apart : (d p : FilePath) → d ≢ p → same_text d p ≡ false
apart d p h = elim (Bool-cases (same_text d p)) [
  | inl e ↦ absurd (h ((same_text_iff d p).0 e))
  | inr e ↦ e
]

dirs_keep :
    (d p : FilePath) (m : Machine)
    → ¬ Within with_sockets d p
    → nodes (with_sockets.create_dir_all d m).1 p ≡ nodes m p
dirs_keep d p m outside =
    let not_d = apart d p (λ e. outside (rw (sym e) Within.itself)) in
    let not_root = apart root p (λ e. outside (rw (sym e) (root-Within d))) in
    ground (arith, not_d, not_root)

with_sockets-HasNodes : HasNodes with_sockets nodes tt
with_sockets-HasNodes = record {
  refused = λ p. io_error ErrorKind.connection_refused;
  stream = λ p. tt;
  refused_kind = λ p. refl;
  no_loop = above_self;
  dirs_made = dirs_made;
  dirs_keep = dirs_keep;
  exists_lem = λ p m. ground arith;
  looked = λ p m h. refl;
  connected = λ p m h. rw h (refl, refl);
  not_connected = λ p m h. rw h refl;
  closed = λ s m. refl;
  removed = λ p m h. ground (arith, same p);
  removed_other = λ p q m h. ground (arith, same_text_iff p q);
  listens = λ p m h. ground (arith, same p);
  listens_other = λ p q m h. ground (arith, same_text_iff p q);
  unblocked = λ b m. refl;
}

abbrev socket_path : FilePath
socket_path = codes "/tmp/sockd.sock"

-- The file that a daemon left behind that crashed.
abbrev crashed : Machine
crashed = with_dir (record blank { files = update blank.files socket_path (some (0 ∷ [])) }) root

only_root : (q : FilePath) → IsAbove with_sockets socket_path q → MayBeDir (nodes crashed q)
only_root q (d, e, within) = rw (in_root d q (parent_lem socket_path d e).1 within) tt

bind_lem_example :
    let end = bind with_sockets socket_path crashed in
    (end.0 ≡ ok tt)
    × (nodes end.1 socket_path ≡ Node.live)
    × ((q : FilePath) → IsAbove with_sockets socket_path q → nodes end.1 q ≡ Node.directory)
    × ((q : FilePath)
        → q ≢ socket_path
        → ¬ IsAbove with_sockets socket_path q
        → nodes end.1 q ≡ nodes crashed q)
bind_lem_example =
    bind_lem with_sockets nodes tt with_sockets-HasNodes socket_path crashed only_root
