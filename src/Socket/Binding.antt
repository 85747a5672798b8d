-- ===== src/Socket/Binding.antt =====
-- What `bind` of src/socket.rs makes of what it finds at its path.
use sockd.Common.{◌≡◌, ◌≢◌, refl, sym, ◌∙◌, none, some, true, arith, Option}
use sockd.Outcome.{Result, ok, err, ◌>>◌}
use sockd.Error.{Error, FilePath, io, daemon_already_running}
use sockd.Os.{Os}
use sockd.Socket.{
  not_a_socket, is_stale_kind, probed, clear_socket, make_parent, open_listener, bind,
}
use sockd.Socket.Nodes.{Node, is_present, MayBeDir, Within, HasNodes}

abbrev pub expected : {L : Type 0} → L → FilePath → Node → Result L Error
expected listener path Node.live = err (daemon_already_running none (some path))
expected listener path Node.other = err (io (not_a_socket path))
expected listener path Node.directory = err (io (not_a_socket path))
expected listener path _ = ok listener

-- What stands at the path afterwards.
abbrev pub left_at : Node → Node
left_at Node.other = Node.other
left_at Node.directory = Node.directory
left_at _ = Node.live

-- `q` is the directory of the path, or above that.
abbrev pub IsAbove : (os : Os) → (path q : FilePath) → Type 0
IsAbove os path q = (d : FilePath) × (os.parent path ≡ some d) × Within os d q

module _ (os : Os) (node : os.World → FilePath → Node) (listener : os.Listener)
    (laws : HasNodes os node listener) where
  -- A listener is opened where nothing stands, and only there something changes.
  open_absent :
      (path : FilePath) (w : os.World)
      → node w path ≡ Node.absent
      → ((open_listener os path w).0 ≡ ok listener)
        × (node (open_listener os path w).1 path ≡ Node.live)
  unfolding open_listener
  open_absent path w h =
      ground (arith, laws.listens path w h, laws.unblocked true (os.listen path w).1)

  open_other :
      (path q : FilePath) (w : os.World)
      → node w path ≡ Node.absent
      → q ≢ path
      → node (open_listener os path w).1 q ≡ node w q
  unfolding open_listener
  open_other path q w h apart = ground (
    arith,
    laws.listens path w h,
    laws.unblocked true (os.listen path w).1,
    laws.listens_other path q w apart,
  )

  -- `bind` below the making of the directory, by what stands at the path.
  abbrev opening : Node → FilePath → os.World → Result os.Listener Error × os.World
  opening n path = clear_socket os path (is_present n) >> open_listener os path

  opened :
      (n : Node) (path : FilePath) (w : os.World)
      → node w path ≡ n
      → ((opening n path w).0 ≡ expected listener path n)
        × (node (opening n path w).1 path ≡ left_at n)
  unfolding clear_socket probed is_stale_kind
  opened Node.absent path w h = open_absent path w h
  opened Node.other path w h = ground (arith, laws.looked path w (rw h refl), h)
  opened Node.directory path w h = ground (arith, laws.looked path w (rw h refl), h)
  opened Node.live path w h =
      let c = laws.connected path w h in
      let closing = laws.closed (laws.stream path) (os.connect path w).1 in
      ground (arith, laws.looked path w (rw h refl), h, c, closing)
  opened Node.stale path w h =
      let gone = laws.removed path w h in
      rw
        (
          laws.looked path w (rw h refl),
          h,
          laws.not_connected path w h,
          laws.refused_kind path,
          gone.0,
        )
        (open_absent path (os.remove_file path w).1 gone.1)

  opened_other :
      (n : Node) (path q : FilePath) (w : os.World)
      → node w path ≡ n
      → q ≢ path
      → node (opening n path w).1 q ≡ node w q
  unfolding clear_socket probed is_stale_kind
  opened_other Node.absent path q w h apart = open_other path q w h apart
  opened_other Node.other path q w h apart = ground (arith, laws.looked path w (rw h refl), h)
  opened_other Node.directory path q w h apart = ground (arith, laws.looked path w (rw h refl), h)
  opened_other Node.live path q w h apart =
      let c = laws.connected path w h in
      let closing = laws.closed (laws.stream path) (os.connect path w).1 in
      ground (arith, laws.looked path w (rw h refl), h, c, closing)
  opened_other Node.stale path q w h apart =
      let gone = laws.removed path w h in
      rw
        (
          laws.looked path w (rw h refl),
          h,
          laws.not_connected path w h,
          laws.refused_kind path,
          gone.0,
        )
        (open_other path q (os.remove_file path w).1 gone.1 apart
          ∙ laws.removed_other path q w apart)

  parent_made :
      (dir : Option FilePath) (w : os.World)
      → ((d q : FilePath) → dir ≡ some d → Within os d q → MayBeDir (node w q))
      → let made = make_parent os dir w in
        (made.0 ≡ ok tt)
        × ((d q : FilePath) → dir ≡ some d → Within os d q → node made.1 q ≡ Node.directory)
        × ((q : FilePath)
            → ((d : FilePath) → dir ≡ some d → ¬ Within os d q)
            → node made.1 q ≡ node w q)
  unfolding make_parent
  parent_made none w free = (refl, λ d q e. absurd cc, λ q outside. refl)
  parent_made (some dir) w free = rw (laws.dirs_made dir w (λ q. free dir q refl)).0 (
    refl,
    λ d q e within.
        let same : d ≡ dir = cc in
        (laws.dirs_made dir w (λ p. free dir p refl)).1 q (rw (sym same) within),
    λ q outside. laws.dirs_keep dir q w (outside dir refl),
  )

  -- What `bind` answers and what it leaves, when nobody else acts and what is above its path are
  -- directories or nothing: where nothing stands at the path, or a socket that nobody listens on, it
  -- listens; a socket that is listened on is left as it is, and the error is `DaemonAlreadyRunning`
  -- with the path; what is no socket, a directory too, is left as it is, and the error names it.
  -- What is above the path are directories then, and no other path changes.
  pub bind_lem :
      (path : FilePath) (w : os.World)
      → ((q : FilePath) → IsAbove os path q → MayBeDir (node w q))
      → let end = bind os path w in
        (end.0 ≡ expected listener path (node w path))
        × (node end.1 path ≡ left_at (node w path))
        × ((q : FilePath) → IsAbove os path q → node end.1 q ≡ Node.directory)
        × ((q : FilePath) → q ≢ path → ¬ IsAbove os path q → node end.1 q ≡ node w q)
  unfolding bind
  bind_lem path w free =
      let made = parent_made (os.parent path) w (λ d q e within. free q (d, e, within)) in
      let w₁ = (make_parent os (os.parent path) w).1 in
      let same = made.2 path (λ d e. laws.no_loop path d e) in
      let rest = opened (node w₁ path) path w₁ refl in
      let other =
        λ (q : FilePath) (apart : q ≢ path). opened_other (node w₁ path) path q w₁ refl apart in
      rw (made.0, laws.exists_lem path w₁, sym same)
        (
          rest.0,
          rest.1,
          λ q (d, e, within).
              other q (λ at_path. laws.no_loop path d e (rw (sym at_path) within))
              ∙ made.1 d q e within,
          λ q apart outside. other q apart ∙ made.2 q (λ d e within. outside (d, e, within)),
        )
