-- ===== src/Config/Values.antt =====
-- internal/config/server.go: values of the environment, and lists in them.
--
-- What Go parses for the source is a `Parsers`: addresses, URLs, glob patterns, durations (their
-- nanoseconds), floating point. A text is valid UTF-8.
use Prim.Native.String.{String}
use termcall.Prelude.{
  ℕ, ◌*◌, ◌^◌, Bool, true, false, ◌||◌, List, [], ◌∷◌, Option, none, some, if◌then◌else◌, ℤ, pos,
  ltb_ℤ, Result, ok, or_fail, Text, text_eq,
}
use termcall.Text.{Bytes, codes}
use termcall.Text.Split.{split}
use termcall.Protocol.Validate.{trim_space}
use termcall.Net.Url.{Url}

-- A `float64`: `finite m k` is m / 2^k.
pub data Float64 : Type 0 where
  nan plus_infinity minus_infinity : Float64
  finite : ℤ → ℕ → Float64

-- `f < n` and `f > n`; NaN is neither.
unfoldable pub less : Float64 → ℕ → Bool
less nan n = false
less plus_infinity n = false
less minus_infinity n = true
less (finite m k) n = ltb_ℤ m (pos (n * 2 ^ k))

unfoldable pub more : Float64 → ℕ → Bool
more nan n = false
more plus_infinity n = true
more minus_infinity n = false
more (finite m k) n = ltb_ℤ (pos (n * 2 ^ k)) m

pub record Parsers : Type 0 where
  pub parse_ip : Text → Bytes
  pub parse_url : Text → Option Url
  pub valid_pattern : Text → Bool
  pub parse_duration : Text → Option ℤ
  pub parse_float : Text → Option Float64
  pub unquote : Text → Option Text

abbrev pub Lookup : Type 0
Lookup = Text → Option Text

unfoldable pub env_string : Lookup → Text → Text → Text
env_string lookup key fallback = elim (lookup key) [ none ↦ fallback | some value ↦ value ]

parsed {ℓ κ} : {E : Type ℓ} {A : Type κ} → E → (Text → Option A) → Text → A → Result E A
parsed e parse [] fallback = ok fallback
parsed e parse (c ∷ s) fallback = or_fail e (parse (c ∷ s))

-- `envInt`, `envFloat`, `envBool` and `envDuration`: a missing or empty value is the fallback.
unfoldable pub env_value {ℓ κ} :
    {E : Type ℓ} {A : Type κ} → E → (Text → Option A) → Lookup → Text → A → Result E A
unfolding parsed
env_value e parse lookup key fallback = elim (lookup key) [
  | none ↦ ok fallback
  | some value ↦ parsed e parse value fallback
]

is_one_of : List String → Text → Bool
is_one_of [] s = false
is_one_of (w ∷ ws) s = text_eq s (codes w) || is_one_of ws s

-- `strconv.ParseBool`
unfoldable pub parse_bool : Text → Option Bool
unfolding is_one_of
parse_bool s =
    if is_one_of ("1" ∷ "t" ∷ "T" ∷ "true" ∷ "TRUE" ∷ "True" ∷ []) s
    then some true
    else if is_one_of ("0" ∷ "f" ∷ "F" ∷ "false" ∷ "FALSE" ∷ "False" ∷ []) s
    then some false
    else none

trimmed_items : List Text → List Text
trimmed_items [] = []
trimmed_items (item ∷ items) =
    let rest = trimmed_items items in
    if text_eq (trim_space item) [] then rest else trim_space item ∷ rest

unfoldable pub split_comma_list : Text → List Text
unfolding trimmed_items
split_comma_list value =
    if text_eq (trim_space value) [] then [] else trimmed_items (split b',' value)
