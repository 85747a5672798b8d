-- ===== src/Ffi/Strings.antt =====
-- The strings of src/ffi.rs: `c_string` and its callers, `write_error`, and the null checks.
use sockd.Common.{
  ℕ, ◌==◌, Option, none, some, List, [], ◌∷◌, ◌++◌, codes, take, leb, length, if◌then◌else◌,
}
use sockd.Text.{Text, as_bytes}
use sockd.Outcome.{Result, ok, err, pure, raise, gets, ◌>>=◌, ◌>>◌}
use sockd.Ffi.{
  Pointer, Memory, undefined, Call, sockd_err_null, sockd_err_utf8, update, deref, on_memory,
  put_pointer,
}

-- The bytes before the first NUL, if there is one.
unfoldable pub until_nul : List ℕ → Option (List ℕ)
until_nul [] = none
until_nul (b ∷ bs) =
    let rest = until_nul bs in
    if b == 0 then some [] else elim rest [ none ↦ none | some cs ↦ some (b ∷ cs) ]

-- `message.bytes().filter(|byte| *byte != 0)`
unfoldable pub without_nul : List ℕ → List ℕ
without_nul [] = []
without_nul (b ∷ bs) = let rest = without_nul bs in if b == 0 then rest else b ∷ rest

module _ {W : Type 0} where
  -- `CStr::from_ptr`
  unfoldable pub c_str_from_ptr : ℕ → Call W (List ℕ)
  unfolding until_nul
  c_str_from_ptr p = do
    bytes ← deref (λ m. m.bytes) p
    elim (until_nul bytes) [ none ↦ raise undefined | some chars ↦ pure chars ]

  -- `slice::from_raw_parts`
  unfoldable pub slice_from_raw_parts :
      {A : Type 0} → (Memory → ℕ → Option (List A)) → ℕ → ℕ → Call W (List A)
  slice_from_raw_parts kind p len = do
    items ← deref kind p
    if leb len (length items) then pure (take len items) else raise undefined

text_of : Option Text → Result Text Text
text_of none = err (codes "value must be valid UTF-8")
text_of (some t) = ok t

-- `CStr::to_str`, and where the allocator puts what `Box::into_raw`, `CString::into_raw` and the
-- forgotten `Vec` give out, are parameters.
module _ (from_utf8 : List ℕ → Option Text) (fresh : Memory → ℕ) {W : Type 0} where
  -- `write_error`
  unfoldable pub write_error : Pointer → Text → ℕ → Call W ℕ
  unfolding without_nul put_pointer
  write_error none message code = pure code
  write_error (some error_out) message code = do
    let bytes = without_nul (as_bytes message) ++ 0 ∷ []
    place ← gets (λ f. fresh f.memory)
    on_memory (λ m. record m { bytes = update m.bytes place (some bytes) })
    put_pointer error_out (some place)
    pure code

  unfoldable pub c_string : Pointer → Call W (Result Text Text)
  unfolding text_of c_str_from_ptr
  c_string none = pure (err (codes "pointer must not be null"))
  c_string (some input) = do chars ← c_str_from_ptr input; pure (text_of (from_utf8 chars))

  unfoldable pub reported : Pointer → Result Text Text → Call W (Option Text)
  unfolding write_error
  reported error_out (ok value) = pure (some value)
  reported error_out (err message) = do write_error error_out message sockd_err_utf8; pure none

  unfoldable pub c_string_result : Pointer → Pointer → Call W (Option Text)
  unfolding c_string reported
  c_string_result input error_out = do r ← c_string input; reported error_out r

  -- The loop of `c_string_vec`, and `out`.
  unfoldable pub push_all : Pointer → List Text → List Pointer → Call W (Option (List Text))
  unfolding c_string_result
  push_all error_out out [] = pure (some out)
  push_all error_out out (arg ∷ argv) = do
    value ← c_string_result arg error_out
    elim value [ none ↦ pure none | some t ↦ push_all error_out (out ++ t ∷ []) argv ]

  unfoldable pub c_strings : Pointer → ℕ → Pointer → Call W (Option (List Text))
  unfolding push_all slice_from_raw_parts write_error
  c_strings error_out argc none = do
    write_error error_out (codes "argv pointer must not be null when argc > 0") sockd_err_null
    pure none
  c_strings error_out argc (some argv) = do
    args ← slice_from_raw_parts (λ m. m.arrays) argv argc
    push_all error_out [] args

  unfoldable pub c_string_vec : ℕ → Pointer → Pointer → Call W (Option (List Text))
  unfolding c_strings
  c_string_vec argc argv error_out =
      if argc == 0 then pure (some []) else c_strings error_out argc argv

  -- `config_mut` and `config_ref`: the address of a config that is there.
  unfoldable pub config_ref : Pointer → Pointer → Call W (Option ℕ)
  unfolding write_error
  config_ref none error_out = do
    write_error error_out (codes "config pointer must not be null") sockd_err_null
    pure none
  config_ref (some config) error_out = do there ← deref (λ m. m.configs) config; pure (some config)
