-- ===== src/Pidfile/Steps.antt =====
-- The rounds of `PidGuard::claim` (src/pidfile.rs) as runs of one process of Pidfile/Claimants.
use sockd.Common.{
  ℕ, zero, suc, ◌≡◌, refl, ap, ◌∙◌, inl, inr, Bool, true, Bool-cases, Option, none, some,
  Option-cases, [], ◌++◌,
}
use sockd.Common.Int.{as_i32}
use sockd.Common.Interleaving.{update, Run, stop, go, from}
use sockd.Text.{Text}
use sockd.Outcome.{◌>>◌, Result, ok, err, Exec}
use sockd.Error.{Error, IoError, ErrorKind, FilePath}
use sockd.Os.{Os}
use sockd.Pidfile.{
  PidGuard, removed, read_content, alive_of, read_pid, is_process_alive, refuse_live, clear_stale,
  remove_if_exists, created, claim_loop, make_parent, claim,
}
use sockd.Pidfile.Files.{is_some}
use sockd.Pidfile.Claimants.{
  Disk, Pc, looking, reading, removing, creating, owning, refused, line, recorded_in, Move,
  finds_none, finds_one, gives_up, reads_garbage, reads_pid, finds_dead, finds_alive, removes,
  creates, writes,
}

-- What the calls of `claim` do to the one path and the files that were made at it.
pub record HasDisk (os : Os) (path : FilePath) (disk : os.World → Disk) (alive : ℕ → Bool) (pid : ℕ)
    : Type 0 where
  pub answer : ℕ → Option ℕ
  pub handle : ℕ → os.File
  pub absent : IoError
  pub absent_kind : absent.kind ≡ ErrorKind.not_found
  pub answers : (p : ℕ) → alive_of os (answer p) ≡ alive p
  pub own : (w : os.World) → os.process_id w ≡ pid
  pub probe : (p : ℕ) (w : os.World) → os.kill (as_i32 p) 0 w ≡ (answer p, w)
  pub dirs_made :
      (d : FilePath) (w : os.World) → os.parent path ≡ some d → (os.create_dir_all d w).0 ≡ ok tt
  pub dirs_keep :
      (d : FilePath) (w : os.World)
      → os.parent path ≡ some d
      → disk (os.create_dir_all d w).1 ≡ disk w
  pub exists_lem : (w : os.World) → os.exists path w ≡ (is_some (disk w).file, w)
  pub read_one :
      (n : ℕ) (w : os.World)
      → (disk w).file ≡ some n
      → os.read_to_string path w ≡ (ok ((disk w).content n), w)
  pub read_none : (w : os.World) → (disk w).file ≡ none → os.read_to_string path w ≡ (err absent, w)
  pub removed :
      (n : ℕ) (w : os.World)
      → (disk w).file ≡ some n
      → ((os.remove_file path w).0 ≡ ok tt)
        × (disk (os.remove_file path w).1 ≡ record (disk w) { file = none })
  pub not_removed : (w : os.World) → (disk w).file ≡ none → disk (os.remove_file path w).1 ≡ disk w
  pub made :
      (w : os.World)
      → (disk w).file ≡ none
      → ((os.create_new path w).0 ≡ ok (handle (disk w).next))
        × (disk (os.create_new path w).1 ≡ record {
          file = some (disk w).next;
          content = update (disk w).content (disk w).next [];
          next = suc (disk w).next;
        })
  pub wrote :
      (n : ℕ) (t : Text) (w : os.World)
      → ((os.write_file (handle n) t w).0 ≡ ok tt)
        × (disk (os.write_file (handle n) t w).1
            ≡ record (disk w) { content = update (disk w).content n ((disk w).content n ++ t) })
  pub flushed :
      (n : ℕ) (w : os.World)
      → ((os.flush_file (handle n) w).0 ≡ ok tt) × (disk (os.flush_file (handle n) w).1 ≡ disk w)

-- Where a process stands that has returned from `claim`.
abbrev pub returned : Result PidGuard Error → Pc
returned (ok guard) = owning
returned (err e) = refused

module _ (os : Os) (path : FilePath) (disk : os.World → Disk) (alive : ℕ → Bool) (pid : ℕ)
    (laws : HasDisk os path disk alive pid) where
  abbrev Leads : (again : Exec os.World Error PidGuard) → Pc → os.World → Type 0
  Leads m p w = Run (Move alive pid) (disk w) p (disk (m w).1) (returned (m w).0)

  -- The two calls on the file that `create_new` made.
  written :
      (n : ℕ) (again : Exec os.World Error PidGuard) (w : os.World)
      → ((created os path again (ok (laws.handle n)) w).0 ≡ ok (record { path = path }))
        × (disk (created os path again (ok (laws.handle n)) w).1 ≡ record (disk w) {
          content = update (disk w).content n ((disk w).content n ++ line pid);
        })
  unfolding created
  written n again w =
      let wrote = laws.wrote n (line pid) w in
      let flushed = laws.flushed n (os.write_file (laws.handle n) (line pid) w).1 in
      rw (laws.own w, wrote.0, flushed.0) (refl, flushed.1 ∙ wrote.1)

  -- From `create_new` on, where there is no file.
  creating-Leads :
      (k : ℕ) (again : Exec os.World Error PidGuard) (w : os.World)
      → (disk w).file ≡ none
      → Leads
          (λ v. created os path again (os.create_new path v).0 (os.create_new path v).1)
          (creating k)
          w
  creating-Leads k again w empty =
      let made = laws.made w empty in
      let after = written (disk w).next again (os.create_new path w).1 in
      rw (made.0, after.0, after.1, made.1) (go (creates empty) (go writes stop))

  -- What is left of a round from `create_new` on.
  abbrev rest : ℕ → Exec os.World Error PidGuard
  rest rounds v =
      created os path (claim_loop os rounds path) (os.create_new path v).0 (os.create_new path v).1

  removing-Leads :
      (k n : ℕ) (w : os.World)
      → (disk w).file ≡ some n
      → Leads (do remove_if_exists os path; rest k) (removing k) w
  unfolding remove_if_exists removed
  removing-Leads k n w there =
      let gone = laws.removed n w there in
      let after = creating-Leads k (claim_loop os k path) (os.remove_file path w).1 (rw gone.1) in
      rw gone.0 (go removes (from gone.1 after))

  reading-Leads :
      (k n : ℕ) (w : os.World)
      → (disk w).file ≡ some n
      → Leads (do clear_stale os path true; rest k) (reading k) w
  unfolding clear_stale refuse_live read_pid read_content is_process_alive
  reading-Leads k n w there =
      let text = (disk w).content n in
      let read = laws.read_one n w there in
      rw read (elim (Option-cases (recorded_in text)) [
        | inl garbage ↦ rw garbage (go (reads_garbage there garbage) (removing-Leads k n w there))
        | inr (p, e) ↦ elim (Bool-cases (alive p)) [
          | inl live ↦
              rw (e, laws.probe p w, laws.answers p, live)
                (go (reads_pid there e) (go (finds_alive live) stop))
          | inr dead ↦
              rw (e, laws.probe p w, laws.answers p, dead)
                (go (reads_pid there e) (go (finds_dead dead) (removing-Leads k n w there)))
        ]
      ])

  -- After the last round the PID file is read once more, and whatever is in it, the claim fails.
  exhausted :
      (w : os.World)
      → ((disk (claim_loop os zero path w).1 ≡ disk w)
          × (returned (claim_loop os zero path w).0 ≡ refused))
  unfolding claim_loop read_pid read_content
  exhausted w = elim (Option-cases (disk w).file) [
    | inl none_there ↦ rw (laws.read_none w none_there, laws.absent_kind) (refl, refl)
    | inr (n, there) ↦ rw (laws.read_one n w there) (refl, refl)
  ]

  -- On a machine where nobody else acts, with the laws of `HasDisk`: what the rounds of claim_loop do
  -- to the disk are steps of one process in Move, from the one that is about to begin to the one that
  -- owns the PID file, if claim_loop returns a guard, or is refused, if it returns an error.
  pub claim_loop-Run :
      (rounds : ℕ) (w : os.World)
      → Run
          (Move alive pid)
          (disk w)
          (looking rounds)
          (disk (claim_loop os rounds path w).1)
          (returned (claim_loop os rounds path w).0)
  unfolding claim_loop clear_stale
  claim_loop-Run zero w = rw ((exhausted w).0, (exhausted w).1) (go gives_up stop)
  claim_loop-Run (suc rounds) w = elim (Option-cases (disk w).file) [
    | inl none_there ↦ rw (laws.exists_lem w ∙ ap (λ f. (is_some f, w)) none_there) (
        go (finds_none none_there) (creating-Leads rounds (claim_loop os rounds path) w none_there))
    | inr (n, there) ↦
        rw (laws.exists_lem w ∙ ap (λ f. (is_some f, w)) there)
          (go (finds_one there) (reading-Leads rounds n w there))
  ]

  parent_made :
      (dir : Option FilePath) (w : os.World)
      → os.parent path ≡ dir
      → ((make_parent os dir w).0 ≡ ok tt) × (disk (make_parent os dir w).1 ≡ disk w)
  unfolding make_parent
  parent_made none w e = (refl, refl)
  parent_made (some dir) w e = rw (laws.dirs_made dir w e) (refl, laws.dirs_keep dir w e)

  -- The same for all of `claim`.
  pub claim-Run :
      (w : os.World)
      → Run
          (Move alive pid)
          (disk w)
          (looking 3)
          (disk (claim os path w).1)
          (returned (claim os path w).0)
  unfolding claim
  claim-Run w =
      let made = parent_made (os.parent path) w refl in
      rw (made.0) (from made.1 (claim_loop-Run 3 (make_parent os (os.parent path) w).1))
