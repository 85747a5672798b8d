-- ===== src/Ffi/Session/Freed.antt =====
-- What the calls of Ffi/Session see, and what they leave in memory.
use sockd.Common.{ℕ, ◌≡◌, refl, Bool, Option, none, some, List, arith, length}
use sockd.Text.{Text}
use sockd.Outcome.{ok}
use sockd.Os.{Os}
use sockd.Client.Waiting.{request, shutdown}
use sockd.Ffi.{SockdClientConfig, Memory, Foreign, update, build_client, sockd_ok}
use sockd.Ffi.Settings.{default_settings, sockd_client_config_set_pid_file}
use sockd.Ffi.Calls.{sockd_client_request, sockd_client_shutdown}
use sockd.Ffi.Messages.{update-update-none, update_same}
use sockd.Ffi.Requests.{handed, sockd_client_request_lem, buffer_free_lem}
use sockd.Ffi.Keeping.{set_pid_file_lem}
use sockd.Ffi.Outcomes.{after_shutdown, sockd_client_shutdown_lem}
use sockd.Ffi.Session.{Variables, session}
use sockd.Ffi.Session.Caller.{
  IsCaller, settings_of, configured, forgotten, deref_lem, c_string_lem, config_new_lem,
  config_free_lem, read_response_lem,
}

module _ (os : Os) (from_utf8 : List ℕ → Option Text) (fresh : Memory → ℕ) (fuel : ℕ)
    (v : Variables) (socket pid_file : Text) (payload : List ℕ) (request_len : ℕ)
    (f : Foreign os.World)
    (caller : IsCaller from_utf8 fresh v socket pid_file payload request_len f.memory) where
  abbrev config : ℕ
  config = fresh f.memory

  abbrev place : ℕ
  place = fresh (configured fresh socket pid_file f.memory)

  abbrev settings : SockdClientConfig
  settings = settings_of socket pid_file

  abbrev with_config : Foreign os.World
  with_config = record f { memory = configured fresh socket pid_file f.memory }

  abbrev created : Foreign os.World
  created = record f {
    memory = record f.memory {
      configs = update f.memory.configs config (some (default_settings socket));
    };
  }

  set_lem :
      sockd_client_config_set_pid_file from_utf8 fresh
        (some config)
        (some v.pid_c)
        (some v.error)
        created
      ≡ (ok sockd_ok, with_config)
  set_lem =
      set_pid_file_lem from_utf8 fresh config (some v.pid_c) (some v.error)
        (default_settings socket) (ok pid_file) created
        (update_same f.memory.configs config (some (default_settings socket)))
        (caller.old_error, caller.error_there)
        (c_string_lem from_utf8 fresh v.pid_c pid_file created caller.pid_string)

  answered_lem :
      (response : List ℕ) (w : os.World)
      → request os fuel (build_client settings) payload f.world ≡ (ok response, w)
      → sockd_client_request os from_utf8 fresh fuel
          (some config)
          (some v.request)
          request_len
          (some v.response_ptr)
          (some v.response_len)
          (some v.error)
          with_config
        ≡ (
          ok sockd_ok,
          record {
            memory =
                handed os fresh with_config.memory v.response_ptr v.response_len
                  (some v.error)
                  (ok response);
            world = w;
          },
        )
  answered_lem response w done =
      sockd_client_request_lem os from_utf8 fresh fuel config v.request request_len v.response_ptr
        v.response_len (some v.error) settings payload (ok response) with_config w
        (record {
          array = caller.array;
          old = caller.old_response;
          old_len = caller.old_len;
          configured = update_same created.memory.configs config (some settings);
          stored = caller.stored;
          long = caller.long;
          sends = caller.sends;
          out = caller.response_there;
          out_len = caller.len_there;
          cell = (caller.old_error, caller.error_there);
        })
        done

  module _ (response : List ℕ) (stopped : Bool) (w₁ w₂ : os.World)
      (requested : request os fuel (build_client settings) payload f.world ≡ (ok response, w₁))
      (stops : shutdown os fuel (build_client settings) w₁ ≡ (ok stopped, w₂)) where
    abbrev responded : Memory
    responded =
        handed os fresh with_config.memory v.response_ptr v.response_len (some v.error)
          (ok response)

    abbrev freed : Memory
    freed = record responded { bytes = update responded.bytes place none }

    stopped_lem :
        sockd_client_shutdown os from_utf8 fresh fuel
          (some config)
          (some v.stopped)
          (some v.error)
          (record { memory = freed; world = w₁ })
        ≡ (
          ok sockd_ok,
          record {
            memory = after_shutdown os fresh freed v.stopped (some v.error) (ok stopped);
            world = w₂;
          },
        )
    stopped_lem =
        sockd_client_shutdown_lem os from_utf8 fresh fuel config (some v.error) settings
          (record { memory = freed; world = w₁ })
          (update_same created.memory.configs config (some settings))
          (caller.old_error, ground (arith, caller.error_there, caller.apart)) v.stopped
          caller.old_stopped (ok stopped) w₂ caller.stopped_there stops

    abbrev halted : Memory
    halted = after_shutdown os fresh freed v.stopped (some v.error) (ok stopped)

    -- The calls of the unit test, on any machine where the request and the shutdown succeed: the caller
    -- has two strings that can be read, a request and its own variables, and the allocator gives out
    -- free addresses. Every call is defined and returns `SOCKD_OK`, the test sees the response and
    -- the answer of the shutdown, and in the end every config and every string or buffer is as it was
    -- before: what the library allocated is freed, and each once. Only three variables have changed.
    pub session_frees : session os from_utf8 fresh fuel v request_len f ≡ (
      ok (record {
        config = some config;
        set_code = sockd_ok;
        request_code = sockd_ok;
        response = response;
        shutdown_code = sockd_ok;
        stopped = stopped;
      }),
      record {
        memory = record f.memory {
          pointers = update f.memory.pointers v.response_ptr (some (some place));
          sizes = update f.memory.sizes v.response_len (some (length response));
          bools = update f.memory.bools v.stopped (some stopped);
        };
        world = w₂;
      },
    )
    unfolding session
    session_frees =
        let new = config_new_lem from_utf8 fresh v.socket_c socket f caller.socket_string in
        let answered = answered_lem response w₁ requested in
        let at_request : Foreign os.World = record { memory = responded; world = w₁ } in
        let at_shutdown : Foreign os.World = record { memory = halted; world = w₂ } in
        let pointer =
          deref_lem (λ m. m.pointers) v.response_ptr (some place) at_request
            (update_same f.memory.pointers v.response_ptr (some (some place))) in
        let len =
          deref_lem (λ m. m.sizes) v.response_len (length response) at_request
            (update_same f.memory.sizes v.response_len (some (length response))) in
        let stored = update_same f.memory.bytes place (some response) in
        let read = read_response_lem place response at_request stored in
        let free = buffer_free_lem os from_utf8 fresh place response at_request stored in
        let flag =
          deref_lem (λ m. m.bools) v.stopped stopped at_shutdown
            (update_same f.memory.bools v.stopped (some stopped)) in
        let gone =
          config_free_lem from_utf8 fresh config settings at_shutdown
            (update_same created.memory.configs config (some settings)) in
        let configs =
          forgotten f.memory.configs config (some (default_settings socket)) (some settings)
            caller.config_free in
        let bytes = update-update-none f.memory.bytes place (some response) caller.response_free in
        rw (new, set_lem, answered, pointer, len, read, free, stopped_lem, flag, gone)
          (rw (configs, bytes) refl)
