-- ===== src/Ffi/Settings.antt =====
-- The functions of src/ffi.rs that make, fill and free a `SockdClientConfig`.
use sockd.Common.{ℕ, Option, none, some, List, []}
use sockd.Text.{Text}
use sockd.Outcome.{Result, ok, err, pure, gets, ◌>>=◌, ◌>>◌}
use sockd.Config.{default_max_payload_len}
use sockd.Ffi.{
  Pointer, SockdClientConfig, Memory, Call, sockd_ok, sockd_err_null, sockd_err_utf8, update, deref,
  on_memory, set_config,
}
use sockd.Ffi.Strings.{c_string, c_string_result, c_string_vec, config_ref}

abbrev pub default_settings : Text → SockdClientConfig
default_settings socket_path = record {
  socket_path = socket_path;
  pid_file = none;
  auto_start_program = none;
  auto_start_args = [];
  max_payload_len = default_max_payload_len;
  shutdown_timeout_ms = 2000;
}

module _ (from_utf8 : List ℕ → Option Text) (fresh : Memory → ℕ) {W : Type 0} where
  boxed : Result Text Text → Call W Pointer
  unfolding set_config
  boxed (err _) = pure none
  boxed (ok socket_path) = do
    place ← gets (λ f. fresh f.memory)
    set_config place (default_settings socket_path)
    pure (some place)

  unfoldable pub sockd_client_config_new : Pointer → Call W Pointer
  unfolding boxed
  sockd_client_config_new socket_path = do r ← c_string from_utf8 fresh socket_path; boxed r

  unfoldable pub sockd_client_config_free : Pointer → Call W (Unit {0})
  sockd_client_config_free none = pure tt
  sockd_client_config_free (some config) = do
    old ← deref (λ m. m.configs) config
    on_memory (λ m. record m { configs = update m.configs config none })

  -- The early return that the functions below begin with.
  unfoldable pub with_config : Pointer → Pointer → (ℕ → Call W ℕ) → Call W ℕ
  with_config config error_out body = do
    place ← config_ref from_utf8 fresh config error_out
    elim place [ none ↦ pure sockd_err_null | some p ↦ body p ]

  -- A value that could not be read, or the write of a field.
  unfoldable pub store_value :
      {A : Type 0} → ℕ → (SockdClientConfig → A → SockdClientConfig) → Option A → Call W ℕ
  unfolding set_config
  store_value place field none = pure sockd_err_utf8
  store_value place field (some v) = do
    c ← deref (λ m. m.configs) place
    set_config place (field c v)
    pure sockd_ok

  unfoldable pub sockd_client_config_set_pid_file : Pointer → Pointer → Pointer → Call W ℕ
  unfolding with_config store_value
  sockd_client_config_set_pid_file config pid_file error_out = with_config config error_out λ place.
      do
        value ← c_string_result from_utf8 fresh pid_file error_out
        store_value place (λ c v. record c { pid_file = some v }) value

  unfoldable pub start_values : ℕ → ℕ → Pointer → Pointer → Option Text → Call W ℕ
  unfolding store_value
  start_values place argc argv error_out none = pure sockd_err_utf8
  start_values place argc argv error_out (some program) = do
    args ← c_string_vec from_utf8 fresh argc argv error_out
    store_value place (λ c v. record c { auto_start_program = some program; auto_start_args = v })
        args

  unfoldable pub start_program : ℕ → ℕ → Pointer → Pointer → Pointer → Call W ℕ
  unfolding start_values
  start_program place argc program argv error_out = do
    value ← c_string_result from_utf8 fresh program error_out
    start_values place argc argv error_out value

  unfoldable pub sockd_client_config_set_auto_start :
      Pointer → Pointer → ℕ → Pointer → Pointer → Call W ℕ
  unfolding with_config start_program
  sockd_client_config_set_auto_start config program argc argv error_out =
      with_config config error_out λ place. start_program place argc program argv error_out

  unfoldable pub sockd_client_config_set_max_payload_len : Pointer → ℕ → Pointer → Call W ℕ
  unfolding with_config store_value
  sockd_client_config_set_max_payload_len config max_payload_len error_out =
      with_config config error_out
        λ place. store_value place (λ c v. record c { max_payload_len = v }) (some max_payload_len)

  unfoldable pub sockd_client_config_set_shutdown_timeout_ms : Pointer → ℕ → Pointer → Call W ℕ
  unfolding with_config store_value
  sockd_client_config_set_shutdown_timeout_ms config shutdown_timeout_ms error_out =
      with_config config error_out λ place.
        store_value place (λ c v. record c { shutdown_timeout_ms = v }) (some shutdown_timeout_ms)
