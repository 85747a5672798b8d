-- ===== src/Ffi/Keeping.antt =====
-- The settings of src/ffi.rs: what they leave of the config when they fail, and what they make of it
-- when they do not.
use sockd.Common.{ℕ, ◌≡◌, ◌≢◌, refl, ◌∙◌, inl, inr, none, some, Option, List, [], ◌∷◌, ◌++◌, arith}
use sockd.Text.{Text}
use sockd.Outcome.{Result, ok, err, Result-cases}
use sockd.Ffi.{Pointer, SockdClientConfig, Memory, Foreign, sockd_ok, sockd_err_utf8, update}
use sockd.Ffi.Strings.{
  write_error, c_string, c_string_result, reported, push_all, c_strings, c_string_vec, config_ref,
}
use sockd.Ffi.Messages.{IsCell, told, write_error_lem}
use sockd.Ffi.Settings.{
  with_config, start_values, start_program, store_value, sockd_client_config_set_auto_start,
  sockd_client_config_set_pid_file,
}

abbrev configs_of : {W : Type 0} → Foreign W → ℕ → Option SockdClientConfig
configs_of f = f.memory.configs

-- What `sockd_client_config_set_pid_file` answers and leaves, by what its string is read as.
abbrev pub code_of_value : Result Text Text → ℕ
code_of_value (ok _) = sockd_ok
code_of_value (err _) = sockd_err_utf8

abbrev pub valued :
    (Memory → ℕ) → Memory → ℕ → SockdClientConfig → Pointer → Result Text Text → Memory
valued fresh m p c error_out (ok pid_file) = record m {
  configs = update m.configs p (some (record c { pid_file = some pid_file }));
}
valued fresh m p c error_out (err message) = told fresh m error_out message

module _ (from_utf8 : List ℕ → Option Text) (fresh : Memory → ℕ) {W : Type 0} where
  write_error-configs :
      (error_out : Pointer) (message : Text) (code : ℕ) (f : Foreign W)
      → (write_error from_utf8 fresh error_out message code f).1.memory.configs ≡ f.memory.configs
  unfolding write_error
  write_error-configs none message code f = refl
  write_error-configs (some p) message code f = ground arith

  c_string-configs :
      (input : Pointer) (f : Foreign W)
      → (c_string from_utf8 fresh input f).1.memory.configs ≡ f.memory.configs
  unfolding c_string
  c_string-configs none f = refl
  c_string-configs (some p) f = ground arith

  c_string_result-configs :
      (input error_out : Pointer) (f : Foreign W)
      → (c_string_result from_utf8 fresh input error_out f).1.memory.configs ≡ f.memory.configs
  unfolding c_string_result reported
  c_string_result-configs input error_out f = grind (arith, c_string-configs, write_error-configs)

  push_all-configs :
      (error_out : Pointer) (out : List Text) (argv : List Pointer) (f : Foreign W)
      → (push_all from_utf8 fresh error_out out argv f).1.memory.configs ≡ f.memory.configs
  unfolding push_all
  push_all-configs error_out out [] f = refl
  push_all-configs error_out out (arg ∷ argv) f = grind (
    arith,
    c_string_result-configs arg error_out,
    λ (t : Text). push_all-configs error_out (out ++ t ∷ []) argv,
  )

  c_string_vec-configs :
      (argc : ℕ) (argv error_out : Pointer) (f : Foreign W)
      → (c_string_vec from_utf8 fresh argc argv error_out f).1.memory.configs ≡ f.memory.configs
  unfolding c_string_vec c_strings
  c_string_vec-configs argc none error_out f = grind (arith, write_error-configs)
  c_string_vec-configs argc (some p) error_out f = grind (arith, push_all-configs)

  config_ref-configs :
      (config error_out : Pointer) (f : Foreign W)
      → (config_ref from_utf8 fresh config error_out f).1.memory.configs ≡ f.memory.configs
  unfolding config_ref
  config_ref-configs none error_out f = grind (arith, write_error-configs)
  config_ref-configs (some p) error_out f = ground arith

  store_value_keeps :
      {A : Type 0} (place : ℕ) (field : SockdClientConfig → A → SockdClientConfig) (v : Option A)
      (f : Foreign W)
      → (store_value from_utf8 fresh place field v f).0 ≢ ok sockd_ok
      → (store_value from_utf8 fresh place field v f).1.memory.configs ≡ f.memory.configs
  unfolding store_value
  store_value_keeps place field none f failed = refl
  store_value_keeps place field (some v) f failed = ground (arith, failed)

  start_values_keeps :
      (place argc : ℕ) (argv error_out : Pointer) (program : Option Text) (f : Foreign W)
      → (start_values from_utf8 fresh place argc argv error_out program f).0 ≢ ok sockd_ok
      → (start_values from_utf8 fresh place argc argv error_out program f).1.memory.configs
        ≡ f.memory.configs
  unfolding start_values
  start_values_keeps place argc argv error_out none f failed = refl
  start_values_keeps place argc argv error_out (some t) f failed =
      let r = c_string_vec from_utf8 fresh argc argv error_out f in
      let field = λ (c : SockdClientConfig) (v : List Text). record c {
        auto_start_program = some t;
        auto_start_args = v;
      } in
      elim (Result-cases (r.0)) [
        | inr (e, stop) ↦ rw stop (c_string_vec-configs argc argv error_out f)
        | inl (v, got) ↦
            rw got (store_value_keeps place field v r.1 (λ e. failed (rw got e)))
            ∙ c_string_vec-configs argc argv error_out f
      ]

  start_program_keeps :
      (place argc : ℕ) (program argv error_out : Pointer) (f : Foreign W)
      → (start_program from_utf8 fresh place argc program argv error_out f).0 ≢ ok sockd_ok
      → (start_program from_utf8 fresh place argc program argv error_out f).1.memory.configs
        ≡ f.memory.configs
  unfolding start_program
  start_program_keeps place argc program argv error_out f failed =
      let r = c_string_result from_utf8 fresh program error_out f in
      elim (Result-cases (r.0)) [
        | inr (e, stop) ↦ rw stop (c_string_result-configs program error_out f)
        | inl (v, got) ↦
            rw got (start_values_keeps place argc argv error_out v r.1 (λ e. failed (rw got e)))
            ∙ c_string_result-configs program error_out f
      ]

  -- Whatever the pointers are, if `sockd_client_config_set_auto_start` does not return `SOCKD_OK`,
  -- every config is as it was: the program is not set without its arguments.
  pub set_auto_start_keeps :
      (config program : Pointer) (argc : ℕ) (argv error_out : Pointer) (f : Foreign W)
      → (sockd_client_config_set_auto_start from_utf8 fresh config program argc argv error_out f).0
        ≢ ok sockd_ok
      → (sockd_client_config_set_auto_start from_utf8 fresh config program argc argv error_out
          f).1.memory.configs
        ≡ f.memory.configs
  unfolding sockd_client_config_set_auto_start with_config
  set_auto_start_keeps config program argc argv error_out f failed =
      let r = config_ref from_utf8 fresh config error_out f in
      elim (Result-cases (r.0)) [
        | inr (e, stop) ↦ rw stop (config_ref-configs config error_out f)
        | inl (none, absent) ↦ rw absent (config_ref-configs config error_out f)
        | inl (some place, got) ↦
            rw got
              (start_program_keeps place argc program argv error_out r.1 (λ e. failed (rw got e)))
            ∙ config_ref-configs config error_out f
      ]

  -- Of a valid config, `sockd_client_config_set_pid_file` sets the path if the string can be read.
  -- If it cannot, and for the null pointer too, it returns `SOCKD_ERR_UTF8`, the message stands
  -- behind `error_out`, and the config is as it was.
  pub set_pid_file_lem :
      (p : ℕ) (pid_file error_out : Pointer) (c : SockdClientConfig) (r : Result Text Text)
      (f : Foreign W)
      → f.memory.configs p ≡ some c
      → IsCell f.memory error_out
      → c_string from_utf8 fresh pid_file f ≡ (ok r, f)
      → sockd_client_config_set_pid_file from_utf8 fresh (some p) pid_file error_out f
        ≡ (ok (code_of_value r), record f { memory = valued fresh f.memory p c error_out r })
  unfolding sockd_client_config_set_pid_file with_config store_value config_ref c_string_result
      reported
  set_pid_file_lem p pid_file error_out c (ok t) f configured cell read =
      ground (arith, configured, read)
  set_pid_file_lem p pid_file error_out c (err message) f configured cell read = ground (
    arith,
    configured,
    read,
    write_error_lem from_utf8 fresh error_out message sockd_err_utf8 f cell,
  )
