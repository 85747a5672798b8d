-- ===== src/Programs/EchoClient.antt =====
-- `main` of examples/echo_client.rs, which returns the line that it prints.
use sockd.Common.{
  ℕ, Bool, true, false, Option, none, some, List, [], ◌∷◌, ◌++◌, codes, if◌then◌else◌,
}
use sockd.Text.{Text, same_text, as_bytes}
use sockd.Outcome.{Exec, Halt, mapping_err, pure, ◌>>=◌}
use sockd.Config.Starting
use sockd.Os.{Os}
use sockd.Client.{Client, new, with_pid_file, with_auto_start_config}
use sockd.Client.Waiting.{request, shutdown}
use sockd.Programs.{MainError, of_crate, Environment, socket_path, pid_path}

-- The variables that the loop over the arguments assigns.
pub record Arguments : Type 0 where
  pub shutdown : Bool
  pub auto_start : Option Text
  pub payload : List Text

abbrev pub initial : Arguments
initial = record { shutdown = false; auto_start = none; payload = [] }

-- The patterns of the `match`.
pub data Pattern : Type 0 where
  dash_shutdown dash_auto_start other : Pattern

unfoldable pub pattern_of : Text → Pattern
pattern_of arg =
    if same_text arg (codes "--shutdown")
    then dash_shutdown
    else if same_text arg (codes "--auto-start")
    then dash_auto_start
    else other

-- The value behind `--auto-start` is taken as it is, so the loop goes on by one or by two.
unfoldable pub parse_args : Arguments → List Text → Arguments
unfolding pattern_of
parse_args a [] = a
parse_args a (arg ∷ []) = elim (pattern_of arg) [
  | dash_shutdown ↦ record a { shutdown = true }
  | dash_auto_start ↦ record a { auto_start = none }
  | other ↦ record a { payload = a.payload ++ (arg ∷ []) }
]
parse_args a (arg ∷ value ∷ args) = elim (pattern_of arg) [
  | dash_shutdown ↦ parse_args (record a { shutdown = true }) (value ∷ args)
  | dash_auto_start ↦ parse_args (record a { auto_start = some value }) args
  | other ↦ parse_args (record a { payload = a.payload ++ (arg ∷ []) }) (value ∷ args)
]

-- `payload.join(" ")`
unfoldable pub join : List Text → Text
join [] = []
join (word ∷ []) = word
join (word ∷ next ∷ words) = word ++ b' ' ∷ join (next ∷ words)

unfoldable pub message : List Text → Text
unfolding join
message [] = codes "hello from rust"
message (word ∷ words) = join (word ∷ words)

unfoldable pub started_by : Client → Option Text → Client
unfolding with_auto_start_config Starting.new
started_by c none = c
started_by c (some program) = with_auto_start_config c (Starting.new program)

unfoldable pub client_of : Environment → Option Text → Client
unfolding started_by new with_pid_file socket_path pid_path
client_of var auto_start =
    started_by (with_pid_file (new (socket_path var)) (pid_path var)) auto_start

-- `{stopped}`
abbrev pub show_bool : Bool → Text
show_bool true = codes "true"
show_bool false = codes "false"

unfoldable pub act : (os : Os) → ℕ → Client → Arguments → Exec os.World (Halt MainError) Text
unfolding message
act os fuel c a =
    if a.shutdown
    then (do stopped ← mapping_err of_crate (shutdown os fuel c); pure (show_bool stopped))
    else (do
      response ← mapping_err of_crate (request os fuel c (as_bytes (message a.payload)))
      pure (os.from_utf8_lossy response))

unfoldable pub main : (os : Os) → ℕ → Environment → List Text → Exec os.World (Halt MainError) Text
unfolding parse_args client_of act
main os fuel var args =
    let a = parse_args initial args in act os fuel (client_of var a.auto_start) a
