-- ===== src/Socket/Kept.antt =====
-- What `bind` and `cleanup` of src/socket.rs leave alone: whatever their calls leave alone.
use sockd.Common.{
  ◌≡◌, refl, Bool, true, false, Option, none, some, arith, inl, inr, Bool-cases, if◌then◌else◌,
}
use sockd.Outcome.{Result, ok, err, bind-keeps, ◌>>=◌, ◌>>◌, mapping_err, attempt, effect, raise}
use sockd.Error.{IoError, FilePath, io}
use sockd.Os.{Os}
use sockd.Socket.{
  bind, cleanup, cleaned, clear_socket, probed, is_stale_kind, not_a_socket, make_parent,
  nonblocking, open_listener,
}

-- `view` is a part of the state that no call changes that is made for the socket at the path `p`.
pub record KeepsBind {V : Type 0} (os : Os) (p : FilePath) (view : os.World → V) : Type 0 where
  pub create_dir_all : (d : FilePath) (w : os.World) → view (os.create_dir_all d w).1 ≡ view w
  pub exists : (w : os.World) → view (os.exists p w).1 ≡ view w
  pub symlink_is_socket : (w : os.World) → view (os.symlink_is_socket p w).1 ≡ view w
  pub connect : (w : os.World) → view (os.connect p w).1 ≡ view w
  pub close : (s : os.Stream) (w : os.World) → view (os.close s w) ≡ view w
  pub remove_file : (w : os.World) → view (os.remove_file p w).1 ≡ view w
  pub listen : (w : os.World) → view (os.listen p w).1 ≡ view w
  pub listener_nonblocking :
      (l : os.Listener) (b : Bool) (w : os.World) → view (os.listener_nonblocking l b w).1 ≡ view w
  pub close_listener : (l : os.Listener) (w : os.World) → view (os.close_listener l w) ≡ view w

module _ {V : Type 0} (os : Os) (p : FilePath) (view : os.World → V)
    (kept : KeepsBind os p view) where
  probed-keeps :
      (answer : Result os.Stream IoError) (w : os.World) → view (probed os p answer w).1 ≡ view w
  unfolding probed
  probed-keeps (ok s) w = kept.close s w
  probed-keeps (err e) w = elim (Bool-cases (is_stale_kind e.kind)) [
    | inl stale ↦ rw stale (kept.remove_file w)
    | inr other ↦ rw other refl
  ]

  clear_socket-keeps :
      (present : Bool) (w : os.World) → view (clear_socket os p present w).1 ≡ view w
  unfolding clear_socket
  clear_socket-keeps false w = refl
  clear_socket-keeps true w =
      bind-keeps view _ (mapping_err io (os.symlink_is_socket p)) kept.symlink_is_socket
        (λ is_socket v.
          elim is_socket
            as (λ b.
              view
                ((if b
                    then (attempt (os.connect p) >>= probed os p)
                    else raise (io (not_a_socket p)))
                  v).1
              ≡ view v) [
                | true ↦
                    bind-keeps view (probed os p) (attempt (os.connect p)) kept.connect probed-keeps
                      v
                | false ↦ refl
              ])
        w

  make_parent-keeps : (d : Option FilePath) (w : os.World) → view (make_parent os d w).1 ≡ view w
  unfolding make_parent
  make_parent-keeps none w = refl
  make_parent-keeps (some d) w = kept.create_dir_all d w

  nonblocking-keeps :
      (l : os.Listener) (answer : Result (Unit {0}) IoError) (w : os.World)
      → view (nonblocking os l answer w).1 ≡ view w
  unfolding nonblocking
  nonblocking-keeps l (ok _) w = refl
  nonblocking-keeps l (err e) w = kept.close_listener l w

  open_listener-keeps : (w : os.World) → view (open_listener os p w).1 ≡ view w
  unfolding open_listener
  open_listener-keeps w =
      bind-keeps view _ (mapping_err io (os.listen p)) kept.listen
        (λ l.
          bind-keeps view (nonblocking os l) (attempt (os.listener_nonblocking l true))
            (kept.listener_nonblocking l true) (nonblocking-keeps l))
        w

  pub bind_keeps : (w : os.World) → view (bind os p w).1 ≡ view w
  unfolding bind
  bind_keeps w =
      bind-keeps view _ (make_parent os (os.parent p)) (make_parent-keeps (os.parent p))
        (λ _.
          bind-keeps view (λ present. clear_socket os p present >> open_listener os p)
            (effect (os.exists p)) kept.exists
            (λ present.
              bind-keeps view (λ _. open_listener os p) (clear_socket os p present)
                (clear_socket-keeps present) (λ _. open_listener-keeps)))
        w

  cleaned-keeps : (r : Result (Unit {0}) IoError) (w : os.World) → view (cleaned os r w).1 ≡ view w
  unfolding cleaned
  cleaned-keeps (ok _) w = refl
  cleaned-keeps (err e) w = ground arith

  pub cleanup_keeps : (w : os.World) → view (cleanup os p w).1 ≡ view w
  unfolding cleanup
  cleanup_keeps w =
      bind-keeps view (cleaned os) (attempt (os.remove_file p)) kept.remove_file cleaned-keeps w
