-- ===== src/Ffi/Requests.antt =====
-- `sockd_client_request` of src/ffi.rs against `Client::request`, and what becomes of the response.
use sockd.Common.{
  ℕ, zero, suc, ◌≤◌, ◌≡◌, refl, ap, ◌∙◌, none, some, Option, List, length, take, arith,
}
use sockd.Text.{Text}
use sockd.Outcome.{Result, ok, err, Halt, raised}
use sockd.Error.{Error}
use sockd.Error.Display.{display}
use sockd.Os.{Os}
use sockd.Client.Waiting.{request}
use sockd.Ffi.{
  Pointer, SockdClientConfig, Memory, Foreign, sockd_ok, sockd_err_operation, update, build_client,
}
use sockd.Ffi.Strings.{config_ref}
use sockd.Ffi.Calls.{request_bytes, sockd_client_request, sockd_buffer_free}
use sockd.Ffi.Messages.{IsCell, told, write_error_lem, update-update-none, update_same}

-- The outcome of a call that returned.
abbrev pub finished : {A : Type 0} → Result A Error → Result A (Halt Error)
finished (ok a) = ok a
finished (err e) = err (raised e)

-- The code and the memory after a request with this outcome.
abbrev pub code_of : {A : Type 0} → Result A Error → ℕ
code_of (ok a) = sockd_ok
code_of (err e) = sockd_err_operation

module _ (os : Os) (fresh : Memory → ℕ) where
  abbrev pub handed : Memory → ℕ → ℕ → Pointer → Result (List ℕ) Error → Memory
  handed m ptr_out len_out error_out (ok response) = record m {
    bytes = update m.bytes (fresh m) (some response);
    pointers = update m.pointers ptr_out (some (some (fresh m)));
    sizes = update m.sizes len_out (some (length response));
  }
  handed m ptr_out len_out error_out (err e) = told fresh m error_out (display os.show_duration e)

-- What the caller of a request hands over: a config, variables for the response, perhaps one for an
-- error, and a request of `len` bytes or more.
pub record IsRequest (m : Memory) (config : ℕ) (c : SockdClientConfig) (payload : List ℕ)
    (bytes len ptr_out len_out : ℕ) (error_out : Pointer) : Type 0 where
  pub array : List ℕ
  pub old : Pointer
  pub old_len : ℕ
  pub configured : m.configs config ≡ some c
  pub stored : m.bytes bytes ≡ some array
  pub long : len ≤ length array
  pub sends : take len array ≡ payload
  pub out : m.pointers ptr_out ≡ some old
  pub out_len : m.sizes len_out ≡ some old_len
  pub cell : IsCell m error_out

module _ (os : Os) (from_utf8 : List ℕ → Option Text) (fresh : Memory → ℕ) where
  bytes_lem :
      (m : Memory) (bytes len : ℕ) (array : List ℕ) (w : os.World)
      → m.bytes bytes ≡ some array
      → len ≤ length array
      → request_bytes os from_utf8 fresh (some bytes) len (record { memory = m; world = w })
        ≡ (ok (some (take len array)), record { memory = m; world = w })
  unfolding request_bytes
  bytes_lem m bytes zero array w stored long = refl
  bytes_lem m bytes (suc len) array w stored long = ground (arith, stored)

  -- With the pointers of `IsRequest`, `sockd_client_request` is `Client::request` of the client that
  -- the config stands for, unless that is still waiting. A response stands in a new array, with its
  -- address and its length in the caller's variables, and the code is `SOCKD_OK`. An error's text
  -- stands behind `error_out`, and the code is `SOCKD_ERR_OPERATION`. Nothing else in memory changes.
  pub sockd_client_request_lem :
      (fuel config bytes len ptr_out len_out : ℕ) (error_out : Pointer) (c : SockdClientConfig)
      (payload : List ℕ) (outcome : Result (List ℕ) Error) (f : Foreign os.World) (w : os.World)
      → IsRequest f.memory config c payload bytes len ptr_out len_out error_out
      → request os fuel (build_client c) payload f.world ≡ (finished outcome, w)
      → sockd_client_request os from_utf8 fresh fuel
          (some config)
          (some bytes)
          len
          (some ptr_out)
          (some len_out)
          error_out
          f
        ≡ (
          ok (code_of outcome),
          record { memory = handed os fresh f.memory ptr_out len_out error_out outcome; world = w },
        )
  unfolding sockd_client_request config_ref
  sockd_client_request_lem fuel config bytes len ptr_out len_out error_out c payload (ok response) f
        w is done =
      let read = bytes_lem f.memory bytes len is.array f.world is.stored is.long in
      ground (arith, is.configured, read, is.sends, done, is.out, is.out_len)
  sockd_client_request_lem fuel config bytes len ptr_out len_out error_out c payload (err e) f w is
        done =
      let read = bytes_lem f.memory bytes len is.array f.world is.stored is.long in
      let failed : Foreign os.World = record f { world = w } in
      let message = display os.show_duration e in
      let written =
        write_error_lem from_utf8 fresh error_out message sockd_err_operation failed is.cell in
      ground (arith, is.configured, read, is.sends, done, written)

  pub buffer_free_lem :
      (p : ℕ) (bytes : List ℕ) (f : Foreign os.World)
      → f.memory.bytes p ≡ some bytes
      → sockd_buffer_free (some p) (length bytes) f
        ≡ (ok tt, record f { memory = record f.memory { bytes = update f.memory.bytes p none } })
  unfolding sockd_buffer_free
  buffer_free_lem p bytes f there = ground (arith, there)

  -- A request that succeeds leaves the response where the caller's two variables say, and to free it
  -- with that pointer and that length is defined and gives back the one allocation that was made, if
  -- the allocator gives out an address that is free.
  pub response_freed :
      (fuel config bytes len ptr_out len_out : ℕ) (error_out : Pointer) (c : SockdClientConfig)
      (payload response : List ℕ) (f : Foreign os.World) (w : os.World)
      → IsRequest f.memory config c payload bytes len ptr_out len_out error_out
      → request os fuel (build_client c) payload f.world ≡ (ok response, w)
      → f.memory.bytes (fresh f.memory) ≡ none
      → let place = fresh f.memory in
        let f' =
          (sockd_client_request os from_utf8 fresh fuel
            (some config)
            (some bytes)
            len
            (some ptr_out)
            (some len_out)
            error_out
            f).1 in
        let freed = sockd_buffer_free (some place) (length response) f' in
        (f'.memory.pointers ptr_out ≡ some (some place))
        × (f'.memory.sizes len_out ≡ some (length response))
        × (f'.memory.bytes place ≡ some response)
        × (freed.0 ≡ ok tt)
        × (freed.1.memory.bytes ≡ f.memory.bytes)
  response_freed fuel config bytes len ptr_out len_out error_out c payload response f w is done
        free =
      let place = fresh f.memory in
      let m = f.memory in
      let f' : Foreign os.World = record {
        memory = handed os fresh m ptr_out len_out error_out (ok response);
        world = w;
      } in
      let stored = update_same m.bytes place (some response) in
      let freed = buffer_free_lem place response f' stored in
      rw
        (sockd_client_request_lem fuel config bytes len ptr_out len_out error_out c payload
          (ok response) f w is done)
        (
          update_same m.pointers ptr_out (some (some place)),
          update_same m.sizes len_out (some (length response)),
          stored,
          ap (λ x. x.0) freed,
          ap (λ x. x.1.memory.bytes) freed ∙ update-update-none m.bytes place (some response) free,
        )
