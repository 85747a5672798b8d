-- ===== src/Client/Absence.antt =====
-- What `shutdown` of src/client.rs looks at to tell that a daemon is gone.
use sockd.Common.{
  ℕ, zero, suc, ◌≡◌, ◌≢◌, refl, sym, ap, ◌⊎◌, true, false, Option, none, some, inl, inr, arith,
  Bool-cases, Option-cases, leb,
}
use sockd.Common.Int.{as_i32}
use sockd.Text.{Text, trim}
use sockd.Text.Decimal.{parse_u32}
use sockd.Outcome.{Result, ok, err, Result-cases}
use sockd.Error.{IoError, ErrorKind, FilePath}
use sockd.Config.{from_millis}
use sockd.Os.{Os}
use sockd.Pidfile.{eperm, read_pid, is_process_alive}
use sockd.Client.{Client}
use sockd.Client.Waiting.{
  alive_pid, live_at, pid_file_points_to_live_process, socket_gone, shutdown_complete,
  shutdown_loop,
}

module _ (os : Os) where
  -- A signal to the process fails, and not for want of permission.
  abbrev pub IsDead : ℕ → os.World → os.World → Type 0
  IsDead pid w w' = (errno : ℕ) × (os.kill (as_i32 pid) 0 w ≡ (some errno, w')) × (errno ≢ eperm)

  -- A PID file that holds this names no live process.
  abbrev pub NamesNone : Option ℕ → os.World → os.World → Type 0
  NamesNone none w w' = w' ≡ w
  NamesNone (some pid) w w' = IsDead pid w w'

  -- From `w` to `w'` the client finds that there is no PID file, or that it names no live process.
  abbrev pub Unowned : Option FilePath → os.World → os.World → Type 0
  Unowned none w w' = w' ≡ w
  Unowned (some p) w w' =
      ((e : IoError) × (os.read_to_string p w ≡ (err e, w')) × (e.kind ≡ ErrorKind.not_found))
      ⊎ ((content : Text) × (v : os.World) × (os.read_to_string p w ≡ (ok content, v))
          × NamesNone (parse_u32 (trim content)) v w')

  -- From `w` to `w'` it finds no socket file, and then that.
  abbrev pub FoundGone : Client → os.World → os.World → Type 0
  FoundGone c w w' =
      (e : IoError) × (v : os.World) × (os.metadata c.socket_path w ≡ (err e, v))
      × (e.kind ≡ ErrorKind.not_found)
      × Unowned c.pid_file v w'

  alive_pid-NamesNone :
      (pid : Option ℕ) (w w' : os.World) → alive_pid os pid w ≡ (ok false, w') → NamesNone pid w w'
  unfolding alive_pid is_process_alive
  alive_pid-NamesNone none w w' h = ap (λ r. r.1) (sym h)
  alive_pid-NamesNone (some pid) w w' h = elim (Option-cases (os.kill (as_i32 pid) 0 w).0) [
    | inl none_there ↦ absurd (ground (arith, h, none_there))
    | inr (errno, failed) ↦ (errno, ground (arith, h, failed), ground (arith, h, failed))
  ]

  read-Unowned :
      (p : FilePath) (w v w' : os.World) (r : Result Text IoError)
      → os.read_to_string p w ≡ (r, v)
      → live_at os (some p) w ≡ (ok false, w')
      → Unowned (some p) w w'
  unfolding live_at read_pid
  read-Unowned p w v w' (ok content) got h = inr (
    content,
    v,
    got,
    alive_pid-NamesNone (parse_u32 (trim content)) v w' (ground (arith, got, h)),
  )
  read-Unowned p w v w' (err e) got h = inl (e, ground (arith, got, h), ground (arith, got, h))

  path-Unowned :
      (path : Option FilePath) (w w' : os.World)
      → live_at os path w ≡ (ok false, w')
      → Unowned path w w'
  unfolding live_at
  path-Unowned none w w' h = ap (λ r. r.1) (sym h)
  path-Unowned (some p) w w' h =
      read-Unowned p w (os.read_to_string p w).1 w' (os.read_to_string p w).0 refl h

  pub pid_file-Unowned :
      (c : Client) (w w' : os.World)
      → pid_file_points_to_live_process os c w ≡ (ok false, w')
      → Unowned c.pid_file w w'
  unfolding pid_file_points_to_live_process
  pid_file-Unowned c w w' h = path-Unowned c.pid_file w w' h

  shutdown_complete-FoundGone :
      (c : Client) (w w' : os.World) → shutdown_complete os c w ≡ (ok true, w') → FoundGone c w w'
  unfolding shutdown_complete socket_gone
  shutdown_complete-FoundGone c w w' h =
      let v = (os.metadata c.socket_path w).1 in
      elim (Result-cases (os.metadata c.socket_path w).0) [
        | inl (there, found) ↦ absurd (ground (arith, h, found))
        | inr (e, failed) ↦
            let missing : e.kind ≡ ErrorKind.not_found = ground (arith, h, failed) in
            (
              e,
              v,
              ap (λ r. (r, v)) failed,
              missing,
              pid_file-Unowned c v w' (ground (arith, h, failed, missing)),
            )
      ]

  pub shutdown_loop-FoundGone :
      (fuel : ℕ) (c : Client) (deadline : ℕ) (w w' : os.World)
      → shutdown_loop os fuel c deadline w ≡ (ok tt, w')
      → (w₃ : os.World) × FoundGone c w₃ w'
  unfolding shutdown_loop
  shutdown_loop-FoundGone zero c deadline w w' h = absurd (ground (arith, h))
  shutdown_loop-FoundGone (suc fuel) c deadline w w' h =
      let w₁ = (shutdown_complete os c w).1 in
      let w₂ = os.sleep (from_millis 20) (os.now w₁).1 in
      elim (Result-cases (shutdown_complete os c w).0) [
        | inr (e, failed) ↦ absurd (ground (arith, h, failed))
        | inl (true, gone) ↦ (w, shutdown_complete-FoundGone c w w' (ground (arith, h, gone)))
        | inl (false, alive) ↦ elim (Bool-cases (leb deadline (os.now w₁).0)) [
          | inl late ↦ absurd (ground (arith, h, alive, late))
          | inr early ↦
              shutdown_loop-FoundGone fuel c deadline w₂ w' (ground (arith, h, alive, early))
        ]
      ]
