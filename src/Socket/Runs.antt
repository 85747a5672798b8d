-- ===== src/Socket/Runs.antt =====
-- `bind` and `cleanup` of src/socket.rs as runs of one process of Socket/Binders.
use sockd.Common.{
  ℕ, ◌≡◌, refl, ap, ◌∙◌, inl, inr, Bool, true, false, Bool-cases, Option, none, some,
}
use sockd.Common.Interleaving.{update, Run, stop, go, from}
use sockd.Outcome.{◌>>◌, Result, ok, err, Exec}
use sockd.Error.{Error, IoError, ErrorKind, FilePath}
use sockd.Os.{Os}
use sockd.Socket.{
  is_stale_kind, probed, clear_socket, make_parent, open_listener, nonblocking, bind, cleaned,
  cleanup,
}
use sockd.Socket.Binders.{
  Found, is_there, Site, Pc, looking, inspecting, opening, holding, done, refused, failed, Move,
  finds_none, finds_some, inspects_socket, inspects_other, probes_stale, probes_live, removes,
  opens, drops, cleans, cleans_none, with_socket,
}

abbrev pub is_socket : Found → Bool
is_socket (Found.a_socket n) = true
is_socket _ = false

is_there-nothing : (f : Found) → is_there f ≡ false → f ≡ Found.nothing
is_there-nothing Found.nothing e = refl
is_there-nothing _ e = absurd cc

-- What the calls of `bind` and `cleanup` do at the one path, on a machine where no other process acts.
pub record HasSite (os : Os) (path : FilePath) (site : os.World → Site) : Type 0 where
  pub handle : ℕ → os.Listener
  pub stream : os.Stream
  pub unreachable : IoError
  pub absent : IoError
  pub unreachable_kind : unreachable.kind ≡ ErrorKind.connection_refused
  pub absent_kind : absent.kind ≡ ErrorKind.not_found
  pub dirs_made :
      (d : FilePath) (w : os.World) → os.parent path ≡ some d → (os.create_dir_all d w).0 ≡ ok tt
  pub dirs_keep :
      (d : FilePath) (w : os.World)
      → os.parent path ≡ some d
      → site (os.create_dir_all d w).1 ≡ site w
  pub exists_lem : (w : os.World) → os.exists path w ≡ (is_there (site w).at_path, w)
  pub looked :
      (w : os.World)
      → is_there (site w).at_path ≡ true
      → os.symlink_is_socket path w ≡ (ok (is_socket (site w).at_path), w)
  pub connected :
      (n : ℕ) (w : os.World)
      → (site w).at_path ≡ Found.a_socket n
      → (site w).listened_on n ≡ true
      → ((os.connect path w).0 ≡ ok stream) × (site (os.connect path w).1 ≡ site w)
  pub not_connected :
      (n : ℕ) (w : os.World)
      → (site w).at_path ≡ Found.a_socket n
      → (site w).listened_on n ≡ false
      → os.connect path w ≡ (err unreachable, w)
  pub closed : (s : os.Stream) (w : os.World) → site (os.close s w) ≡ site w
  pub removed :
      (w : os.World)
      → is_there (site w).at_path ≡ true
      → ((os.remove_file path w).0 ≡ ok tt)
        × (site (os.remove_file path w).1 ≡ record (site w) { at_path = Found.nothing })
  pub not_removed :
      (w : os.World) → (site w).at_path ≡ Found.nothing → os.remove_file path w ≡ (err absent, w)
  pub listens :
      (w : os.World)
      → (site w).at_path ≡ Found.nothing
      → ((os.listen path w).0 ≡ ok (handle (site w).next))
        × (site (os.listen path w).1 ≡ with_socket (site w))
  pub unblocked : (n : ℕ) (w : os.World) → os.listener_nonblocking (handle n) true w ≡ (ok tt, w)
  pub dropped :
      (n : ℕ) (w : os.World)
      → site (os.close_listener (handle n) w)
        ≡ record (site w) { listened_on = update (site w).listened_on n false }

module _ (os : Os) (path : FilePath) (site : os.World → Site) (laws : HasSite os path site) where
  -- Where a process stands that has returned from `bind`.
  abbrev pub Returned : Result os.Listener Error → Pc → Type 0
  Returned (ok l) (holding n) = l ≡ laws.handle n
  Returned (err (Error.daemon_already_running pid socket)) refused = Unit
  Returned (err (Error.io e)) failed = Unit
  Returned _ _ = ⊥

  -- The steps from where a process stands lead to what it has done at the end.
  abbrev Leads : Exec os.World Error os.Listener → Pc → os.World → Type 0
  Leads m p w = (p' : Pc) × Run Move (site w) p (site (m w).1) p' × Returned (m w).0 p'

  after :
      (m : Exec os.World Error os.Listener) {p p' : Pc} {w : os.World}
      → Move (site w) p (site w) p'
      → Leads m p' w
      → Leads m p w
  after m move (p'', run, r) = (p'', go move run, r)

  opening-Leads :
      (w : os.World) → (site w).at_path ≡ Found.nothing → Leads (open_listener os path) opening w
  unfolding open_listener nonblocking
  opening-Leads w empty =
      let listens = laws.listens w empty in
      rw (listens.0, laws.unblocked (site w).next (os.listen path w).1, listens.1)
        (holding (site w).next, go (opens empty) stop, refl)

  -- `bind` below the making of the directory, by what stands at the path.
  abbrev below : Bool → Exec os.World Error os.Listener
  below present = clear_socket os path present >> open_listener os path

  looked-at :
      (f : Found) (w : os.World)
      → (site w).at_path ≡ f
      → is_there f ≡ true
      → os.symlink_is_socket path w ≡ (ok (is_socket f), w)
  looked-at f w e present =
      laws.looked w (ap is_there e ∙ present) ∙ ap (λ g. (ok (is_socket g), w)) e

  removing-Leads :
      (n : ℕ) (w : os.World)
      → (site w).at_path ≡ Found.a_socket n
      → (site w).listened_on n ≡ false
      → Leads (below true) inspecting w
  unfolding clear_socket probed is_stale_kind
  removing-Leads n w there stale =
      let present : is_there (site w).at_path ≡ true = rw there refl in
      let gone = laws.removed w present in
      let w₁ = (os.remove_file path w).1 in
      let (p, run, r) = opening-Leads w₁ (ap (λ d. d.at_path) gone.1) in
      rw
        (
          looked-at (Found.a_socket n) w there refl,
          laws.not_connected n w there stale,
          laws.unreachable_kind,
          gone.0,
        )
        (
          p,
          go (inspects_socket there)
              (go (probes_stale there stale) (go (removes present) (from gone.1 run))),
          r,
        )

  refused-Leads :
      (n : ℕ) (w : os.World)
      → (site w).at_path ≡ Found.a_socket n
      → (site w).listened_on n ≡ true
      → Leads (below true) inspecting w
  unfolding clear_socket probed
  refused-Leads n w there live =
      let present : is_there (site w).at_path ≡ true = rw there refl in
      let c = laws.connected n w there live in
      let closing = laws.closed laws.stream (os.connect path w).1 in
      rw (looked-at (Found.a_socket n) w there refl, c.0, closing, c.1)
        (refused, go (inspects_socket there) (go (probes_live there live) stop), tt)

  below-Leads :
      (f : Found) (w : os.World) → (site w).at_path ≡ f → Leads (below (is_there f)) looking w
  unfolding clear_socket
  below-Leads Found.nothing w empty = after (below false) (finds_none empty) (opening-Leads w empty)
  below-Leads Found.something_else w there =
      let present : is_there (site w).at_path ≡ true = rw there refl in
      rw (looked-at Found.something_else w there refl)
        (failed, go (finds_some present) (go (inspects_other there) stop), tt)
  below-Leads (Found.a_socket n) w there =
      let present : is_there (site w).at_path ≡ true = rw there refl in
      after (below true) (finds_some present) (elim (Bool-cases ((site w).listened_on n)) [
        | inl live ↦ refused-Leads n w there live
        | inr stale ↦ removing-Leads n w there stale
      ])

  parent_made :
      (dir : Option FilePath) (w : os.World)
      → os.parent path ≡ dir
      → ((make_parent os dir w).0 ≡ ok tt) × (site (make_parent os dir w).1 ≡ site w)
  unfolding make_parent
  parent_made none w e = (refl, refl)
  parent_made (some dir) w e = rw (laws.dirs_made dir w e) (refl, laws.dirs_keep dir w e)

  -- On a machine where nobody else acts, with the laws of `HasSite`: what bind does at its path are
  -- steps of one process in Move, from the one that is about to begin to the one that holds the
  -- listener that is returned, or is refused, if bind returns `DaemonAlreadyRunning`, or has failed,
  -- if it returns an error of the operating system. It returns no other error.
  pub bind-Run :
      (w : os.World)
      → (p : Pc) × Run Move (site w) looking (site (bind os path w).1) p
        × Returned (bind os path w).0 p
  unfolding bind
  bind-Run w =
      let made = parent_made (os.parent path) w refl in
      let w₁ = (make_parent os (os.parent path) w).1 in
      let (p, run, r) = below-Leads (site w₁).at_path w₁ refl in
      rw (made.0, laws.exists_lem w₁) (p, from made.1 run, r)

  -- So are the drop of the listener and cleanup, at the end of `run`.
  pub cleanup-Run :
      (n : ℕ) (w : os.World)
      → let after_drop = os.close_listener (laws.handle n) w in
        ((cleanup os path after_drop).0 ≡ ok tt)
        × Run Move (site w) (holding n) (site (cleanup os path after_drop).1) done
  unfolding cleanup cleaned
  cleanup-Run n w = elim (Bool-cases (is_there (site w).at_path)) [
    | inl present ↦
        let gone =
          laws.removed (os.close_listener (laws.handle n) w) (rw (laws.dropped n w) present) in
        rw (gone.0, gone.1, laws.dropped n w) (refl, go drops (go (cleans present) stop))
    | inr missing ↦
        let empty : (site w).at_path ≡ Found.nothing = is_there-nothing (site w).at_path missing in
        rw
          (
            laws.not_removed (os.close_listener (laws.handle n) w) (rw (laws.dropped n w) empty),
            laws.absent_kind,
            laws.dropped n w,
          )
          (refl, go drops (go (cleans_none empty) stop))
  ]
