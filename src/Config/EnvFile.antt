-- ===== src/Config/EnvFile.antt =====
-- internal/config/server.go: `parseEnv`, `unquoteEnvValue` and `validEnvKey`.
--
-- `bufio.Scanner` gives the lines up to the first of 64 KB or more, where it stops with an error; its
-- empty line behind a last newline is skipped as any other. `strconv.Unquote` is of the `Parsers`.
pub mod Laws
use Prim.Native.String.{String}
use termcall.Prelude.{
  ℕ, zero, suc, ◌+◌, Bool, true, false, not, ◌&&◌, ◌||◌, List, [], ◌∷◌, ◌++◌, Option, none, some,
  ltb, ◌==◌, if◌then◌else◌, Result, ok, err, ◌>>=◌, ◌>>◌, guard, or_fail, Text, text_eq, insert,
}
use termcall.Text.{codes}
use termcall.Text.Split.{split, cut_byte}
use termcall.Protocol.Message.{byte_length}
use termcall.Protocol.Validate.{Runes, trim_space}
use termcall.Config.Values.{Parsers}

pub data EnvError : Type 0 where
  long_line no_equals_sign invalid_key invalid_quoted_value : EnvError

abbrev pub Env : Type 0
Env = List (Text × Text)

abbrev pub max_line_bytes : ℕ
max_line_bytes = 65535

module _ (u : Runes) where
  unfoldable pub continues : Text → Bool
  continues [] = true
  continues (c ∷ s) = (c == b'_' || u.is_letter c || u.is_digit c) && continues s

  unfoldable pub valid_env_key : Text → Bool
  valid_env_key [] = false
  valid_env_key (c ∷ s) = (c == b'_' || u.is_letter c) && continues s

last : ℕ → Text → ℕ
last c [] = c
last c (d ∷ s) = last d s

but_last : ℕ → Text → Text
but_last c [] = []
but_last c (d ∷ s) = c ∷ but_last d s

contains : ℕ → Text → Bool
contains c [] = false
contains c (d ∷ s) = d == c || contains c s

unfoldable single_quoted : Text → Result EnvError Text
unfolding contains
single_quoted inner = if contains b'\'' inner then err invalid_quoted_value else ok inner

module _ (parsers : Parsers) where
  unfoldable pub unquote_env_value : Text → Result EnvError Text
  unfolding last but_last single_quoted
  unquote_env_value [] = err invalid_quoted_value
  unquote_env_value (c ∷ []) = err invalid_quoted_value
  unquote_env_value (c ∷ d ∷ s) =
      if not (last d s == c)
      then err invalid_quoted_value
      else if c == b'\''
      then single_quoted (but_last d s)
      else or_fail invalid_quoted_value (parsers.unquote (c ∷ d ∷ s))

  value_of : Text → Result EnvError Text
  value_of [] = ok []
  value_of (c ∷ s) = if c == b'"' || c == b'\'' then unquote_env_value (c ∷ s) else ok (c ∷ s)

  module _ (u : Runes) where
    assign : Env → Text → Text → Result EnvError Env
    assign values key value = do
      guard (valid_env_key u key) invalid_key
      unquoted ← value_of value
      ok (insert key unquoted values)

    entry : Env → Text → Result EnvError Env
    entry values [] = ok values
    entry values (c ∷ line) = if c == b'#' then ok values else elim (cut_byte b'=' (c ∷ line)) [
      | none ↦ err no_equals_sign
      | some (key, value) ↦ assign values (trim_space key) (trim_space value)
    ]

    unfoldable pub parse_line : Env → Text → Result EnvError Env
    unfolding entry assign value_of
    parse_line values line =
        if ltb max_line_bytes (byte_length line)
        then err long_line
        else entry values (trim_space line)

    unfoldable pub parse_lines : Env → List Text → Result EnvError Env
    parse_lines values [] = ok values
    parse_lines values (line ∷ lines) = parse_line values line >>= λ next. parse_lines next lines

    unfoldable pub parse_env : Text → Result EnvError Env
    parse_env text = parse_lines [] (split b'\n' text)
