-- ===== src/Error/Display.antt =====
-- `impl Display for Error`. How a `Duration` prints by `{:?}` is a parameter.
use sockd.Common.{
  ℕ, zero, suc, ◌+◌, ◌/◌, ◌%◌, Option, none, some, [], ◌∷◌, ◌++◌, codes, ltb, if◌then◌else◌,
}
use sockd.Text.{Text}
use sockd.Text.Decimal.{show}
use sockd.Error

hex_digit : ℕ → ℕ
hex_digit d = if ltb d 10 then 48 + d else 87 + d

hex_loop : ℕ → ℕ → Text → Text
unfolding hex_digit
hex_loop zero n acc = acc
hex_loop (suc k) n acc = hex_loop k (n / 16) (hex_digit (n % 16) ∷ acc)

-- `{:08x}` of a u32
unfoldable pub show_hex8 : ℕ → Text
unfolding hex_loop
show_hex8 n = hex_loop 8 n []

already_running : Option ℕ → Option Text → Text
already_running (some pid) (some socket) =
    codes "daemon already running with pid " ++ (show pid ++ (codes " on socket " ++ socket))
already_running (some pid) none = codes "daemon already running with pid " ++ show pid
already_running none (some socket) = codes "daemon already running on socket " ++ socket
already_running none none = codes "daemon already running"

module _ (show_duration : Error.Duration → Text) where
  -- `to_string`
  unfoldable pub display : Error.Error → Text
  unfolding already_running
  display (Error.io e) = e.message
  display (Error.missing_callback name) = codes "missing required callback: " ++ name
  display (Error.invalid_frame_magic magic) = codes "invalid frame magic: 0x" ++ show_hex8 magic
  display (Error.unsupported_frame_version version) =
      codes "unsupported frame version: " ++ show version
  display (Error.unknown_frame_kind kind) = codes "unknown frame kind: " ++ show kind
  display (Error.unexpected_frame_kind expected actual) =
      codes "unexpected frame kind: expected " ++ (expected ++ (codes ", got " ++ actual))
  display (Error.payload_too_large len max) =
      codes "payload length " ++ (show len ++ (codes " exceeds maximum " ++ show max))
  display (Error.daemon_already_running pid socket) = already_running pid socket
  display (Error.ready_timeout socket timeout) =
      codes "daemon did not become ready on "
      ++ (socket ++ (codes " within " ++ show_duration timeout))
  display (Error.shutdown_timeout socket timeout) =
      codes "daemon did not shut down on "
      ++ (socket ++ (codes " within " ++ show_duration timeout))
  display (Error.daemon_returned_error message) = codes "daemon returned error: " ++ message
  display (Error.startup e) = codes "daemon startup failed: " ++ e.message
  display (Error.request e) = codes "request handler failed: " ++ e.message
  display (Error.shutdown e) = codes "daemon shutdown failed: " ++ e.message
