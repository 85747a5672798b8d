-- ===== src/Programs/Words.antt =====
-- What examples/echo_client.rs makes of its arguments.
use mathlib.Core.List.{append-nil, append_assoc}
use sockd.Common.{ℕ, ◌≡◌, refl, ap, sym, ◌∙◌, true, none, some, List, [], ◌∷◌, ◌++◌, All, codes}
use sockd.Text.{Text, as_bytes}
use sockd.Outcome.{Result, Exec, Halt, pure, mapping_err, ◌>>=◌}
use sockd.Os.{Os}
use sockd.Client.{Client}
use sockd.Client.Waiting.{request, shutdown}
use sockd.Programs.{MainError, of_crate, Environment}
use sockd.Programs.EchoClient.{
  Arguments, initial, other, pattern_of, parse_args, message, client_of, show_bool, act, main,
}

abbrev pub IsWord : Text → Type 0
IsWord t = pattern_of t ≡ other

abbrev with_words : Arguments → List Text → Arguments
with_words a words = record a { payload = a.payload ++ words }

parse_args-word :
    (a : Arguments) (word : Text) (rest : List Text)
    → IsWord word
    → parse_args a (word ∷ rest) ≡ parse_args (with_words a (word ∷ [])) rest
unfolding parse_args
parse_args-word a word [] h = rw (h, parse_args)
parse_args-word a word (next ∷ rest) h = rw (h, parse_args)

parse_args-words :
    (a : Arguments) (words rest : List Text)
    → All IsWord words
    → parse_args a (words ++ rest) ≡ parse_args (with_words a words) rest
parse_args-words a [] rest h =
    ap (λ p. parse_args (record a { payload = p }) rest) (sym (append-nil a.payload))
parse_args-words a (word ∷ words) rest (h, hs) =
    parse_args-word a word (words ++ rest) h
    ∙ parse_args-words (with_words a (word ∷ [])) words rest hs
    ∙ ap (λ p. parse_args (record a { payload = p }) rest)
        (append_assoc a.payload (word ∷ []) words)

parse_args_of_words :
    (a : Arguments) (words : List Text) → All IsWord words → parse_args a words ≡ with_words a words
unfolding parse_args
parse_args_of_words a words h =
    ap (parse_args a) (sym (append-nil words)) ∙ parse_args-words a words [] h

parse_args-shutdown :
    (a : Arguments) (rest : List Text)
    → parse_args a (codes "--shutdown" ∷ rest) ≡ parse_args (record a { shutdown = true }) rest
unfolding parse_args
parse_args-shutdown a [] = refl
parse_args-shutdown a (next ∷ rest) = refl

parse_args-auto_start :
    (a : Arguments) (program : Text) (rest : List Text)
    → parse_args a (codes "--auto-start" ∷ program ∷ rest)
      ≡ parse_args (record a { auto_start = some program }) rest
unfolding parse_args
parse_args-auto_start a program rest = refl

-- A request with a text, and the line that is printed.
abbrev pub sent : (os : Os) → ℕ → Client → Text → Exec os.World (Halt MainError) Text
sent os fuel c t = do
  response ← mapping_err of_crate (request os fuel c (as_bytes t))
  pure (os.from_utf8_lossy response)

module _ (os : Os) (fuel : ℕ) (var : Environment) (w : os.World) where
  abbrev main_of : Arguments → Result Text (Halt MainError) × os.World
  main_of a = act os fuel (client_of var a.auto_start) a w

  -- The echo client that is given words that are no options sends them, with a space between two, or
  -- its own text if there are none, and prints the response.
  pub main_sends :
      (words : List Text)
      → All IsWord words
      → main os fuel var words w ≡ sent os fuel (client_of var none) (message words) w
  unfolding main act
  main_sends words h = ap main_of (parse_args_of_words initial words h)

  -- With `--auto-start` and a program between words that are no options, the echo client sends the
  -- words and may start that program, whatever it is called.
  main_starts :
      (before after : List Text) (program : Text)
      → All IsWord before
      → All IsWord after
      → main os fuel var (before ++ codes "--auto-start" ∷ program ∷ after) w
        ≡ sent os fuel (client_of var (some program)) (message (before ++ after)) w
  unfolding main act
  main_starts before after program h k = ap main_of (
      parse_args-words initial before _ h
      ∙ parse_args-auto_start (with_words initial before) program after
      ∙ parse_args_of_words (record (with_words initial before) { auto_start = some program }) after
          k)

  -- With `--shutdown` between words that are no options, the echo client calls shutdown and nothing
  -- else, and prints whether a daemon was stopped.
  main_stops :
      (before after : List Text)
      → All IsWord before
      → All IsWord after
      → main os fuel var (before ++ codes "--shutdown" ∷ after) w
        ≡ (do
          stopped ← mapping_err of_crate (shutdown os fuel (client_of var none))
          pure (show_bool stopped))
            w
  unfolding main act
  main_stops before after h k = ap main_of (
      parse_args-words initial before _ h
      ∙ parse_args-shutdown _ after
      ∙ parse_args_of_words _ after k)
