-- ===== src/Ffi/Messages.antt =====
-- The messages that src/ffi.rs leaves behind `error_out`, as the caller reads and frees them.
use mathlib.Core.Path.{fun_ext}
use sockd.Common.{ℕ, ◌≡◌, refl, ap, ◌∙◌, none, some, Option, List, [], ◌∷◌, ◌++◌, arith}
use sockd.Text.{Text, as_bytes}
use sockd.Outcome.{ok}
use sockd.Ffi.{Pointer, Memory, Foreign, update}
use sockd.Ffi.Strings.{until_nul, without_nul, c_str_from_ptr, write_error}
use sockd.Ffi.Calls.{sockd_string_free}

-- The caller gave no `error_out`, or one that refers to a pointer of its own.
abbrev pub IsCell : Memory → Pointer → Type 0
IsCell m none = Unit
IsCell m (some p) = (old : Pointer) × (m.pointers p ≡ some old)

-- The memory after a message was written.
abbrev pub told : (Memory → ℕ) → Memory → Pointer → Text → Memory
told fresh m none message = m
told fresh m (some error_out) message = record m {
  bytes = update m.bytes (fresh m) (some (without_nul (as_bytes message) ++ 0 ∷ []));
  pointers = update m.pointers error_out (some (some (fresh m)));
}

-- To free an address that was free before the write leaves the bytes as they were.
pub update-update-none :
    {A : Type 0} (bytes : ℕ → Option A) (p : ℕ) (v : Option A)
    → bytes p ≡ none
    → update (update bytes p v) p none ≡ bytes
update-update-none bytes p v free = fun_ext λ q. ground arith

pub update_same :
    {A : Type 0} (bytes : ℕ → Option A) (p : ℕ) (v : Option A) → update bytes p v p ≡ v
update_same bytes p v = ground arith

until_nul-without_nul :
    (bytes : List ℕ) → until_nul (without_nul bytes ++ 0 ∷ []) ≡ some (without_nul bytes)
unfolding until_nul without_nul
until_nul-without_nul [] = refl
until_nul-without_nul (b ∷ bs) = ground (arith, until_nul-without_nul bs)

module _ {W : Type 0} (p : ℕ) (bytes chars : List ℕ) (f : Foreign W)
    (there : f.memory.bytes p ≡ some bytes) (ends : until_nul bytes ≡ some chars) where
  pub c_str_lem : c_str_from_ptr p f ≡ (ok chars, f)
  unfolding c_str_from_ptr
  c_str_lem = ground (arith, there, ends)

  string_free_lem :
      sockd_string_free (some p) f
      ≡ (ok tt, record f { memory = record f.memory { bytes = update f.memory.bytes p none } })
  unfolding sockd_string_free
  string_free_lem = rw c_str_lem refl

module _ (from_utf8 : List ℕ → Option Text) (fresh : Memory → ℕ) {W : Type 0} where
  pub write_error_lem :
      (error_out : Pointer) (message : Text) (code : ℕ) (f : Foreign W)
      → IsCell f.memory error_out
      → write_error from_utf8 fresh error_out message code f
        ≡ (ok code, record f { memory = told fresh f.memory error_out message })
  unfolding write_error
  write_error_lem none message code f cell = refl
  write_error_lem (some p) message code f (old, there) = rw there refl

  -- The caller of any function that fails finds behind `error_out` the message without its NUL bytes,
  -- as `strlen` and `sockd_string_free` read it; to free it gives back the one allocation that was
  -- made, where the allocator gives out an address that is free.
  pub message_freed :
      (error_out : ℕ) (old : Pointer) (message : Text) (code : ℕ) (f : Foreign W)
      → f.memory.pointers error_out ≡ some old
      → f.memory.bytes (fresh f.memory) ≡ none
      → let told = (write_error from_utf8 fresh (some error_out) message code f).1 in
        let place = fresh f.memory in
        (told.memory.pointers error_out ≡ some (some place))
        × ((c_str_from_ptr place told).0 ≡ ok (without_nul (as_bytes message)))
        × ((sockd_string_free (some place) told).0 ≡ ok tt)
        × ((sockd_string_free (some place) told).1.memory.bytes ≡ f.memory.bytes)
  message_freed error_out old message code f there free =
      let written = write_error_lem (some error_out) message code f (old, there) in
      let place = fresh f.memory in
      let bytes = without_nul (as_bytes message) ++ 0 ∷ [] in
      let chars = without_nul (as_bytes message) in
      let f' : Foreign W = record f { memory = told fresh f.memory (some error_out) message } in
      let stored = update_same f.memory.bytes place (some bytes) in
      let ends = until_nul-without_nul (as_bytes message) in
      let freed = string_free_lem place bytes chars f' stored ends in
      rw written (
        update_same f.memory.pointers error_out (some (some place)),
        ap (λ x. x.0) (c_str_lem place bytes chars f' stored ends),
        ap (λ x. x.0) freed,
        ap (λ x. x.1.memory.bytes) freed
            ∙ update-update-none f.memory.bytes place (some bytes) free,
      )
