-- ===== src/Ffi/Session/Caller.antt =====
-- What the caller of Ffi/Session has in memory, and what single calls do with that.
use mathlib.Core.Path.{fun_ext}
use sockd.Common.{
  ℕ, ◌≤◌, ◌≡◌, ◌≢◌, refl, true, Bool, Option, none, some, List, arith, length, take, leb,
  take-length,
}
use sockd.Text.{Text}
use sockd.Outcome.{ok}
use sockd.Ffi.{Pointer, SockdClientConfig, Memory, Foreign, update, deref}
use sockd.Ffi.Strings.{until_nul, c_str_from_ptr, c_string, slice_from_raw_parts}
use sockd.Ffi.Settings.{default_settings, sockd_client_config_new, sockd_client_config_free}
use sockd.Ffi.Session.{Variables, read_response}

-- An address at which a string stands.
pub record IsString (from_utf8 : List ℕ → Option Text) (stored : ℕ → Option (List ℕ)) (p : ℕ)
    (t : Text) : Type 0 where
  pub bytes : List ℕ
  pub chars : List ℕ
  pub there : stored p ≡ some bytes
  pub ends : until_nul bytes ≡ some chars
  pub decodes : from_utf8 chars ≡ some t

-- The config after `sockd_client_config_set_pid_file`.
abbrev pub settings_of : (socket pid_file : Text) → SockdClientConfig
settings_of socket pid_file = record (default_settings socket) { pid_file = some pid_file }

-- The memory with the config, before the request.
abbrev pub configured : (Memory → ℕ) → (socket pid_file : Text) → Memory → Memory
configured fresh socket pid_file m = record m {
  configs =
      update (update m.configs (fresh m) (some (default_settings socket))) (fresh m)
        (some (settings_of socket pid_file));
}

-- What the caller has in memory: two strings, a request, and its variables. The allocator gives out
-- free addresses for the config and for the response.
pub record IsCaller (from_utf8 : List ℕ → Option Text) (fresh : Memory → ℕ) (v : Variables)
    (socket pid_file : Text) (payload : List ℕ) (request_len : ℕ) (m : Memory) : Type 0 where
  pub socket_string : IsString from_utf8 m.bytes v.socket_c socket
  pub pid_string : IsString from_utf8 m.bytes v.pid_c pid_file
  pub array : List ℕ
  pub stored : m.bytes v.request ≡ some array
  pub long : request_len ≤ length array
  pub sends : take request_len array ≡ payload
  pub old_error : Pointer
  pub error_there : m.pointers v.error ≡ some old_error
  pub old_response : Pointer
  pub response_there : m.pointers v.response_ptr ≡ some old_response
  pub apart : v.error ≢ v.response_ptr
  pub old_len : ℕ
  pub len_there : m.sizes v.response_len ≡ some old_len
  pub old_stopped : Bool
  pub stopped_there : m.bools v.stopped ≡ some old_stopped
  pub config_free : m.configs (fresh m) ≡ none
  pub response_free : m.bytes (fresh (configured fresh socket pid_file m)) ≡ none

pub forgotten :
    {A : Type 0} (f : ℕ → Option A) (p : ℕ) (a b : Option A)
    → f p ≡ none
    → update (update (update f p a) p b) p none ≡ f
forgotten f p a b free = fun_ext λ q. ground arith

pub deref_lem :
    {W A : Type 0} (kind : Memory → ℕ → Option A) (p : ℕ) (a : A) (f : Foreign W)
    → kind f.memory p ≡ some a
    → deref kind p f ≡ (ok a, f)
deref_lem kind p a f there = ground (arith, there)

pub c_string_lem :
    (from_utf8 : List ℕ → Option Text) (fresh : Memory → ℕ) {W : Type 0} (p : ℕ) (t : Text)
    (f : Foreign W)
    → IsString from_utf8 f.memory.bytes p t
    → c_string from_utf8 fresh (some p) f ≡ (ok (ok t), f)
unfolding c_string c_str_from_ptr
c_string_lem from_utf8 fresh p t f is = ground (arith, is.there, is.ends, is.decodes)

pub config_new_lem :
    (from_utf8 : List ℕ → Option Text) (fresh : Memory → ℕ) {W : Type 0} (p : ℕ) (t : Text)
    (f : Foreign W)
    → IsString from_utf8 f.memory.bytes p t
    → sockd_client_config_new from_utf8 fresh (some p) f ≡ (
      ok (some (fresh f.memory)),
      record f {
        memory = record f.memory {
          configs = update f.memory.configs (fresh f.memory) (some (default_settings t));
        };
      },
    )
unfolding sockd_client_config_new
config_new_lem from_utf8 fresh p t f is = rw (c_string_lem from_utf8 fresh p t f is) refl

pub config_free_lem :
    (from_utf8 : List ℕ → Option Text) (fresh : Memory → ℕ) {W : Type 0} (p : ℕ)
    (c : SockdClientConfig) (f : Foreign W)
    → f.memory.configs p ≡ some c
    → sockd_client_config_free from_utf8 fresh (some p) f
      ≡ (ok tt, record f { memory = record f.memory { configs = update f.memory.configs p none } })
unfolding sockd_client_config_free
config_free_lem from_utf8 fresh p c f there = ground (arith, there)

pub read_response_lem :
    {W : Type 0} (p : ℕ) (response : List ℕ) (f : Foreign W)
    → f.memory.bytes p ≡ some response
    → read_response (some p) (length response) f ≡ (ok response, f)
unfolding read_response slice_from_raw_parts
read_response_lem p response f there =
    let fits : leb (length response) (length response) ≡ true = ground arith in
    ground (arith, there, fits, take-length response)
