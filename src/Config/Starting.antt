-- ===== src/Config/Starting.antt =====
-- `impl AutoStart` of src/config.rs: the builder methods.
use sockd.Common.{List, [], ◌∷◌, ◌++◌}
use sockd.Text.{Text}
use sockd.Error.{FilePath, Duration}
use sockd.Config.{AutoStart, from_secs, from_millis}

unfoldable pub new : FilePath → AutoStart
new program = record {
  program = program;
  args = [];
  ready_timeout = from_secs 2;
  initial_backoff = from_millis 50;
  max_backoff = from_millis 250;
}

unfoldable pub arg : AutoStart → Text → AutoStart
arg a t = record a { args = a.args ++ (t ∷ []) }

unfoldable pub args : AutoStart → List Text → AutoStart
args a ts = record a { args = a.args ++ ts }

unfoldable pub ready_timeout : AutoStart → Duration → AutoStart
ready_timeout a d = record a { ready_timeout = d }

unfoldable pub initial_backoff : AutoStart → Duration → AutoStart
initial_backoff a d = record a { initial_backoff = d }

unfoldable pub max_backoff : AutoStart → Duration → AutoStart
max_backoff a d = record a { max_backoff = d }
