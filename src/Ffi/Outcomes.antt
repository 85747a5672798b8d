-- ===== src/Ffi/Outcomes.antt =====
-- `sockd_client_ping` and `sockd_client_shutdown` of src/ffi.rs against `Client`, and the pointers that
-- `sockd_client_request` refuses.
use sockd.Common.{ℕ, ◌≡◌, none, some, Option, Bool, List, codes, ◌==◌, arith, if◌then◌else◌}
use sockd.Text.{Text}
use sockd.Outcome.{Result, ok, err}
use sockd.Error.{Error}
use sockd.Error.Display.{display}
use sockd.Os.{Os}
use sockd.Client.Waiting.{ping, shutdown}
use sockd.Ffi.{
  Pointer, SockdClientConfig, Memory, Foreign, sockd_err_null, sockd_err_operation, update,
  build_client,
}
use sockd.Ffi.Strings.{config_ref}
use sockd.Ffi.Calls.{sockd_client_ping, sockd_client_shutdown, sockd_client_request, request_bytes}
use sockd.Ffi.Messages.{IsCell, told, write_error_lem}
use sockd.Ffi.Requests.{finished, code_of}

-- The memory after a call that hands nothing over, and after `sockd_client_shutdown`.
abbrev pub after_ping : Os → (Memory → ℕ) → Memory → Pointer → Result (Unit {0}) Error → Memory
after_ping os fresh m error_out (ok _) = m
after_ping os fresh m error_out (err e) = told fresh m error_out (display os.show_duration e)

abbrev pub after_shutdown : Os → (Memory → ℕ) → Memory → ℕ → Pointer → Result Bool Error → Memory
after_shutdown os fresh m stopped_out error_out (ok stopped) = record m {
  bools = update m.bools stopped_out (some stopped);
}
after_shutdown os fresh m stopped_out error_out (err e) =
    told fresh m error_out (display os.show_duration e)

module _ (os : Os) (from_utf8 : List ℕ → Option Text) (fresh : Memory → ℕ) (fuel config : ℕ)
    (error_out : Pointer) (c : SockdClientConfig) (f : Foreign os.World)
    (configured : f.memory.configs config ≡ some c) (cell : IsCell f.memory error_out) where
  -- `sockd_client_ping` is `Client::ping` of the client that the config stands for: `SOCKD_OK` with
  -- the memory as it was, or `SOCKD_ERR_OPERATION` with the error's text behind `error_out`.
  pub sockd_client_ping_lem :
      (outcome : Result (Unit {0}) Error) (w : os.World)
      → ping os fuel (build_client c) f.world ≡ (finished outcome, w)
      → sockd_client_ping os from_utf8 fresh fuel (some config) error_out f ≡ (
        ok (code_of outcome),
        record { memory = after_ping os fresh f.memory error_out outcome; world = w },
      )
  unfolding sockd_client_ping config_ref
  sockd_client_ping_lem (ok _) w done = ground (arith, configured, done)
  sockd_client_ping_lem (err e) w done = ground (
    arith,
    configured,
    done,
    write_error_lem from_utf8 fresh error_out (display os.show_duration e) sockd_err_operation
        (record f { world = w }) cell,
  )

  -- `sockd_client_shutdown` is `Client::shutdown`: its answer stands in the caller's variable, or the
  -- error's text behind `error_out`.
  pub sockd_client_shutdown_lem :
      (stopped_out : ℕ) (old : Bool) (outcome : Result Bool Error) (w : os.World)
      → f.memory.bools stopped_out ≡ some old
      → shutdown os fuel (build_client c) f.world ≡ (finished outcome, w)
      → sockd_client_shutdown os from_utf8 fresh fuel (some config) (some stopped_out) error_out f
        ≡ (
          ok (code_of outcome),
          record {
            memory = after_shutdown os fresh f.memory stopped_out error_out outcome;
            world = w;
          },
        )
  unfolding sockd_client_shutdown config_ref
  sockd_client_shutdown_lem stopped_out old (ok stopped) w out done =
      ground (arith, configured, done, out)
  sockd_client_shutdown_lem stopped_out old (err e) w out done = ground (
    arith,
    configured,
    done,
    write_error_lem from_utf8 fresh error_out (display os.show_duration e) sockd_err_operation
        (record f { world = w }) cell,
  )

-- The first pointer that `sockd_client_request` misses, by the message for it.
abbrev pub missing :
    (config request_ptr : Pointer) (len : ℕ) (ptr_out len_out : Pointer) → Option Text
missing none request_ptr len ptr_out len_out = some (codes "config pointer must not be null")
missing (some c) request_ptr len none len_out =
    some (codes "response output pointers must not be null")
missing (some c) request_ptr len (some p) none =
    some (codes "response output pointers must not be null")
missing (some c) none len (some p) (some q) =
    if len == 0 then none else some (codes "request pointer must not be null when request_len > 0")
missing (some c) (some r) len (some p) (some q) = none

-- A pointer that is null or leads to a config.
abbrev pub IsNullOrConfig : Memory → Pointer → Type 0
IsNullOrConfig m none = Unit
IsNullOrConfig m (some p) = (c : SockdClientConfig) × (m.configs p ≡ some c)

module _ (os : Os) (from_utf8 : List ℕ → Option Text) (fresh : Memory → ℕ) (fuel : ℕ)
    (error_out : Pointer) (f : Foreign os.World) (cell : IsCell f.memory error_out) where
  -- A request with a null pointer that it needs, be it the config, a pointer for the response or the
  -- request of some length, returns `SOCKD_ERR_NULL` with a message that names the pointer, and the
  -- machine is as it was: no daemon is asked and none is started.
  pub sockd_client_request_refuses :
      (config request_ptr : Pointer) (len : ℕ) (ptr_out len_out : Pointer) (message : Text)
      → IsNullOrConfig f.memory config
      → missing config request_ptr len ptr_out len_out ≡ some message
      → sockd_client_request os from_utf8 fresh fuel config request_ptr len ptr_out len_out
          error_out f
        ≡ (ok sockd_err_null, record f { memory = told fresh f.memory error_out message })
  unfolding sockd_client_request config_ref request_bytes
  sockd_client_request_refuses none request_ptr len ptr_out len_out message there h =
      ground (arith, h, write_error_lem from_utf8 fresh error_out message sockd_err_null f cell)
  sockd_client_request_refuses (some p) request_ptr len none len_out message (c, there) h =
      ground
        (arith, there, h, write_error_lem from_utf8 fresh error_out message sockd_err_null f cell)
  sockd_client_request_refuses (some p) request_ptr len (some q) none message (c, there) h =
      ground
        (arith, there, h, write_error_lem from_utf8 fresh error_out message sockd_err_null f cell)
  sockd_client_request_refuses (some p) none len (some q) (some r) message (c, there) h =
      ground
        (arith, there, h, write_error_lem from_utf8 fresh error_out message sockd_err_null f cell)
  sockd_client_request_refuses (some p) (some b) len (some q) (some r) message there h = cc
