-- ===== src/Ffi/Calls.antt =====
-- The calls of src/ffi.rs that reach a daemon, and the functions that free what they gave out.
use sockd.Common.{ℕ, ◌==◌, Bool, Option, none, some, List, [], codes, length, if◌then◌else◌}
use sockd.Text.{Text}
use sockd.Outcome.{Result, ok, err, pure, raise, gets, ◌>>=◌, ◌>>◌}
use sockd.Error.{Error}
use sockd.Error.Display.{display}
use sockd.Os.{Os}
use sockd.Client.{Client}
use sockd.Client.Waiting.{ping, request, shutdown}
use sockd.Ffi.{
  Pointer, Memory, Call, undefined, sockd_ok, sockd_err_null, sockd_err_operation, update, deref,
  on_memory, put_pointer, put_size, put_bool, of_client, build_client,
}
use sockd.Ffi.Strings.{c_str_from_ptr, slice_from_raw_parts, write_error, config_ref}

module _ (os : Os) (from_utf8 : List ℕ → Option Text) (fresh : Memory → ℕ) where
  open os use {World}

  -- The arm `Err(err)` of every call.
  operation_failed : Pointer → Error → Call World ℕ
  operation_failed error_out e =
      write_error from_utf8 fresh error_out (display os.show_duration e) sockd_err_operation

  -- The early return that the calls begin with, and the client that they build.
  with_client : Pointer → Pointer → (Client → Call World ℕ) → Call World ℕ
  with_client config error_out body = do
    place ← config_ref from_utf8 fresh config error_out
    elim place [
      | none ↦ pure sockd_err_null
      | some p ↦ do c ← deref (λ m. m.configs) p; body (build_client c)
    ]

  ping_code : Pointer → Result (Unit {0}) Error → Call World ℕ
  unfolding operation_failed
  ping_code error_out (ok _) = pure sockd_ok
  ping_code error_out (err e) = operation_failed error_out e

  unfoldable pub sockd_client_ping : ℕ → Pointer → Pointer → Call World ℕ
  unfolding with_client ping_code
  sockd_client_ping fuel config error_out =
      with_client config error_out
        λ client. do r ← of_client (ping os fuel client); ping_code error_out r

  -- The bytes of a request; `none` stands for the null pointer with a length.
  unfoldable pub request_bytes : Pointer → ℕ → Call World (Option (List ℕ))
  unfolding slice_from_raw_parts
  request_bytes request_ptr request_len =
      if request_len == 0 then pure (some []) else elim request_ptr [
        | none ↦ pure none
        | some p ↦ do bytes ← slice_from_raw_parts (λ m. m.bytes) p request_len; pure (some bytes)
      ]

  -- The response is forgotten by Rust and handed to the caller.
  response_code : ℕ → ℕ → Pointer → Result (List ℕ) Error → Call World ℕ
  unfolding operation_failed put_pointer put_size
  response_code ptr_out len_out error_out (ok response) = do
    place ← gets (λ f. fresh f.memory)
    on_memory (λ m. record m { bytes = update m.bytes place (some response) })
    put_pointer ptr_out (some place)
    put_size len_out (length response)
    pure sockd_ok
  response_code ptr_out len_out error_out (err e) = operation_failed error_out e

  request_sent : ℕ → Client → ℕ → ℕ → Pointer → Option (List ℕ) → Call World ℕ
  unfolding response_code
  request_sent fuel client ptr_out len_out error_out none =
      write_error from_utf8 fresh error_out
        (codes "request pointer must not be null when request_len > 0") sockd_err_null
  request_sent fuel client ptr_out len_out error_out (some payload) = do
    r ← of_client (request os fuel client payload)
    response_code ptr_out len_out error_out r

  -- Below the null check on the config.
  request_code : ℕ → Client → Pointer → ℕ → Pointer → Pointer → Pointer → Call World ℕ
  unfolding request_sent request_bytes
  request_code fuel client request_ptr request_len (some ptr_out) (some len_out) error_out = do
    payload ← request_bytes request_ptr request_len
    request_sent fuel client ptr_out len_out error_out payload
  request_code fuel client request_ptr request_len _ _ error_out =
      write_error from_utf8 fresh error_out (codes "response output pointers must not be null")
        sockd_err_null

  unfoldable pub sockd_client_request :
      ℕ → Pointer → Pointer → ℕ → Pointer → Pointer → Pointer → Call World ℕ
  unfolding with_client request_code
  sockd_client_request fuel config request_ptr request_len response_ptr_out response_len_out
        error_out =
      with_client config error_out λ client.
        request_code fuel client request_ptr request_len response_ptr_out response_len_out error_out

  shutdown_code : ℕ → Pointer → Result Bool Error → Call World ℕ
  unfolding operation_failed put_bool
  shutdown_code stopped_out error_out (ok answer) = do put_bool stopped_out answer; pure sockd_ok
  shutdown_code stopped_out error_out (err e) = operation_failed error_out e

  shutdown_sent : ℕ → Client → Pointer → Pointer → Call World ℕ
  unfolding shutdown_code
  shutdown_sent fuel client none error_out =
      write_error from_utf8 fresh error_out (codes "stopped_out pointer must not be null")
        sockd_err_null
  shutdown_sent fuel client (some stopped_out) error_out = do
    r ← of_client (shutdown os fuel client)
    shutdown_code stopped_out error_out r

  unfoldable pub sockd_client_shutdown : ℕ → Pointer → Pointer → Pointer → Call World ℕ
  unfolding with_client shutdown_sent
  sockd_client_shutdown fuel config stopped_out error_out =
      with_client config error_out λ client. shutdown_sent fuel client stopped_out error_out

module _ {W : Type 0} where
  -- The drop of the `Vec` that `ptr` and `len` stand for.
  unfoldable pub sockd_buffer_free : Pointer → ℕ → Call W (Unit {0})
  sockd_buffer_free none len = pure tt
  sockd_buffer_free (some p) len = do
    bytes ← deref (λ m. m.bytes) p
    if length bytes == len
        then on_memory (λ m. record m { bytes = update m.bytes p none })
        else raise undefined

  -- The drop of the `CString`.
  unfoldable pub sockd_string_free : Pointer → Call W (Unit {0})
  unfolding c_str_from_ptr
  sockd_string_free none = pure tt
  sockd_string_free (some p) = do
    chars ← c_str_from_ptr p
    on_memory (λ m. record m { bytes = update m.bytes p none })
