-- ===== src/Ffi/Session.antt =====
-- The calls of the unit test in src/ffi.rs, from the making of the config to its end.
pub mod Caller
pub mod Freed
use sockd.Common.{ℕ, Bool, Option, none, some, List}
use sockd.Text.{Text}
use sockd.Outcome.{pure, ◌>>=◌, ◌>>◌, raise}
use sockd.Os.{Os}
use sockd.Ffi.{Pointer, Memory, Call, undefined, deref}
use sockd.Ffi.Strings.{slice_from_raw_parts}
use sockd.Ffi.Settings.{
  sockd_client_config_new, sockd_client_config_free, sockd_client_config_set_pid_file,
}
use sockd.Ffi.Calls.{sockd_client_request, sockd_client_shutdown, sockd_buffer_free}

-- The addresses of `socket_c`, `pid_c`, `request`, `error`, `response_ptr`, `response_len` and
-- `stopped`.
pub record Variables : Type 0 where
  pub socket_c : ℕ
  pub pid_c : ℕ
  pub request : ℕ
  pub error : ℕ
  pub response_ptr : ℕ
  pub response_len : ℕ
  pub stopped : ℕ

-- What the test asserts something about.
pub record Seen : Type 0 where
  pub config : Pointer
  pub set_code : ℕ
  pub request_code : ℕ
  pub response : List ℕ
  pub shutdown_code : ℕ
  pub stopped : Bool

-- `slice::from_raw_parts` of the pointer that the call left; the null pointer is not allowed.
pub read_response : {W : Type 0} → Pointer → ℕ → Call W (List ℕ)
unfolding slice_from_raw_parts
read_response none len = raise undefined
read_response (some p) len = slice_from_raw_parts (λ m. m.bytes) p len

unfoldable pub session :
    (os : Os) → (List ℕ → Option Text) → (Memory → ℕ) → ℕ → Variables → ℕ → Call os.World Seen
unfolding read_response
session os from_utf8 fresh fuel v request_len = do
  config ← sockd_client_config_new from_utf8 fresh (some v.socket_c)
  set_code ← sockd_client_config_set_pid_file from_utf8 fresh config (some v.pid_c) (some v.error)
  request_code ←
      sockd_client_request os from_utf8 fresh fuel config (some v.request) request_len
        (some v.response_ptr) (some v.response_len) (some v.error)
  ptr ← deref (λ m. m.pointers) v.response_ptr
  len ← deref (λ m. m.sizes) v.response_len
  response ← read_response ptr len
  sockd_buffer_free ptr len
  shutdown_code ←
      sockd_client_shutdown os from_utf8 fresh fuel config (some v.stopped) (some v.error)
  stopped ← deref (λ m. m.bools) v.stopped
  sockd_client_config_free from_utf8 fresh config
  pure (record {
    config = config;
    set_code = set_code;
    request_code = request_code;
    response = response;
    shutdown_code = shutdown_code;
    stopped = stopped;
  })
