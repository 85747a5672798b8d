-- ===== src/Ffi.antt =====
-- src/ffi.rs: the C interface of the client. The memory that it shares with its caller is explicit:
-- what a pointer refers to may be missing, and then the source's behaviour is undefined.
pub mod Strings
pub mod Settings
pub mod Calls
pub mod Messages
pub mod Requests
pub mod Served
pub mod Session
pub mod Keeping
pub mod Outcomes
use sockd.Common.{ℕ, ◌==◌, Bool, Option, none, some, List, if◌then◌else◌}
use sockd.Text.{Text}
use sockd.Outcome.{Result, ok, err, Exec, Halt, raised, unfinished, pure, raise, ◌>>=◌, ◌>>◌}
use sockd.Config.{from_millis}
use sockd.Config.Starting
use sockd.Client
use sockd.Client.{Client}

-- The null pointer, or an address.
abbrev pub Pointer : Type 0
Pointer = Option ℕ

pub record SockdClientConfig : Type 0 where
  pub socket_path : Text
  pub pid_file : Option Text
  pub auto_start_program : Option Text
  pub auto_start_args : List Text
  pub max_payload_len : ℕ
  pub shutdown_timeout_ms : ℕ

-- What stands at an address, by its type: the boxes of configs, arrays of bytes, arrays of pointers,
-- and single variables of the caller that hold a pointer, a size or a bool.
pub record Memory : Type 0 where
  pub configs : ℕ → Option SockdClientConfig
  pub bytes : ℕ → Option (List ℕ)
  pub arrays : ℕ → Option (List Pointer)
  pub pointers : ℕ → Option Pointer
  pub sizes : ℕ → Option ℕ
  pub bools : ℕ → Option Bool

pub record Foreign (W : Type 0) : Type 0 where
  pub memory : Memory
  pub world : W

-- The source's undefined behaviour, and the fuel of the client's waiting loops.
pub data Fault : Type 0 where
  undefined stuck : Fault

abbrev pub Call : Type 0 → Type 0 → Type 0
Call W A = Exec (Foreign W) Fault A

abbrev pub sockd_ok : ℕ
sockd_ok = 0

abbrev pub sockd_err_null : ℕ
sockd_err_null = 1

abbrev pub sockd_err_utf8 : ℕ
sockd_err_utf8 = 2

abbrev pub sockd_err_operation : ℕ
sockd_err_operation = 3

abbrev pub update {ℓ} : {A : Type ℓ} → (ℕ → Option A) → ℕ → Option A → ℕ → Option A
update f p v q = if p == q then v else f q

-- The outcome of a call of the client, unless it is still in its loop.
abbrev pub attempted : {E A : Type 0} → Result A (Halt E) → Result (Result A E) Fault
attempted (ok a) = ok (ok a)
attempted (err (raised e)) = ok (err e)
attempted (err unfinished) = err stuck

module _ {W : Type 0} where
  -- `*p` in one of the kinds of memory
  abbrev pub deref : {A : Type 0} → (Memory → ℕ → Option A) → ℕ → Call W A
  deref kind p f = elim (kind f.memory p) [ none ↦ (err undefined, f) | some a ↦ (ok a, f) ]

  abbrev pub on_memory : (Memory → Memory) → Call W (Unit {0})
  on_memory g f = (ok tt, record f { memory = g f.memory })

  -- `*p = v`, where `p` refers to a variable
  unfoldable pub put_pointer : ℕ → Pointer → Call W (Unit {0})
  put_pointer p v = do
    old ← deref (λ m. m.pointers) p
    on_memory (λ m. record m { pointers = update m.pointers p (some v) })

  unfoldable pub put_size : ℕ → ℕ → Call W (Unit {0})
  put_size p v = do
    old ← deref (λ m. m.sizes) p
    on_memory (λ m. record m { sizes = update m.sizes p (some v) })

  unfoldable pub put_bool : ℕ → Bool → Call W (Unit {0})
  put_bool p v = do
    old ← deref (λ m. m.bools) p
    on_memory (λ m. record m { bools = update m.bools p (some v) })

  unfoldable pub set_config : ℕ → SockdClientConfig → Call W (Unit {0})
  set_config p c = on_memory (λ m. record m { configs = update m.configs p (some c) })

  -- A call of the client acts on the world alone.
  abbrev pub of_client : {E A : Type 0} → Exec W (Halt E) A → Call W (Result A E)
  of_client m f = let (r, w) = m f.world in (attempted r, record f { world = w })

-- `SockdClientConfig::build_client`
with_optional_pid_file : Option Text → Client → Client
unfolding Client.with_pid_file
with_optional_pid_file none c = c
with_optional_pid_file (some pid_file) c = Client.with_pid_file c pid_file

with_program : Option Text → List Text → Client → Client
unfolding Client.with_auto_start_config Starting.new Starting.args
with_program none args c = c
with_program (some program) args c =
    Client.with_auto_start_config c (Starting.args (Starting.new program) args)

unfoldable pub build_client : SockdClientConfig → Client
unfolding Client.new Client.with_max_payload_len Client.with_shutdown_timeout with_optional_pid_file
    with_program
build_client c =
    let bounded = Client.with_max_payload_len (Client.new c.socket_path) c.max_payload_len in
    let timed = Client.with_shutdown_timeout bounded (from_millis c.shutdown_timeout_ms) in
    with_program c.auto_start_program c.auto_start_args (with_optional_pid_file c.pid_file timed)
