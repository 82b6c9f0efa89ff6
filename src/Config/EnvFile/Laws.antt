-- ===== src/Config/EnvFile/Laws.antt =====
-- What `parseEnv` reads of a file whose values are single-quoted.
use termcall.Prelude.{
  ℕ, ◌≤◌, ◌≡◌, ◌≢◌, refl, ap, inl, inr, true, false, ◌||◌, List, [], ◌∷◌, ◌++◌, arith, ltb, ◌==◌,
  ok, All, All-append, Text, insert, Bool-cases,
}
use mathlib.Core.Path.{subst}
use mathlib.Core.List.{append_assoc}
use termcall.Text.Lines.{terminated}
use termcall.Text.Split.{Lacks, split, split-append, cut_byte-append}
use termcall.Protocol.Message.{byte_length}
use termcall.Protocol.Validate.{Runes, is_space, trim_space, trim_left, trim_right}
use termcall.Protocol.Validate.Trim.{trim_space_ends, trim_space_solid}
use termcall.Config.Values.{Parsers}
use termcall.Config.EnvFile.{
  Env, max_line_bytes, last, but_last, contains, single_quoted, value_of, assign, entry, continues,
  valid_env_key, unquote_env_value, parse_line, parse_lines, parse_env,
}

-- A letter or a digit is no space, equals sign or hash.
pub record Words (u : Runes) : Type 0 where
  pub word :
      (c : ℕ)
      → (u.is_letter c || u.is_digit c) ≡ true
      → (is_space c ≡ false) × ((c == b'=') ≡ false) × ((c == b'#') ≡ false)

module _ (u : Runes) (words : Words u) where
  abbrev Plain : ℕ → Type 0
  Plain c = (is_space c ≡ false) × ((c == b'=') ≡ false) × ((c == b'#') ≡ false)

  key-Plain : (c : ℕ) → (c == b'_' || u.is_letter c || u.is_digit c) ≡ true → Plain c
  unfolding is_space
  key-Plain c h = elim (Bool-cases (c == b'_')) [
    | inl e ↦ ground arith
    | inr e ↦ words.word c (rw e at h)
  ]

  continues-Plain : (s : Text) → continues u s ≡ true → All Plain s
  unfolding continues
  continues-Plain [] h = tt
  continues-Plain (c ∷ s) h = (key-Plain c (ground arith), continues-Plain s (ground arith))

  valid_env_key-Plain : (s : Text) → valid_env_key u s ≡ true → All Plain s
  unfolding valid_env_key
  valid_env_key-Plain [] h = absurd (cc)
  valid_env_key-Plain (c ∷ s) h = (key-Plain c (ground arith), continues-Plain s (ground arith))

  Plain-Lacks : (s : Text) → All Plain s → Lacks b'=' s
  Plain-Lacks [] h = tt
  Plain-Lacks (c ∷ s) h = (ground (arith, h.0.1), Plain-Lacks s h.1)

  Plain-Solid : (s : Text) → All Plain s → All (λ c. is_space c ≡ false) s
  Plain-Solid [] h = tt
  Plain-Solid (c ∷ s) h = (h.0.0, Plain-Solid s h.1)

space-quote : is_space b'\'' ≡ false
unfolding is_space
space-quote = refl

-- `KEY='value'`
abbrev pub quoted_line : Text → Text → Text
quoted_line key value = key ++ b'=' ∷ b'\'' ∷ (value ++ b'\'' ∷ [])

last-end : (c : ℕ) (s : Text) (d : ℕ) → last c (s ++ d ∷ []) ≡ d
unfolding last
last-end c [] d = refl
last-end c (e ∷ s) d = last-end e s d

but_last-end : (c : ℕ) (s : Text) (d : ℕ) → but_last c (s ++ d ∷ []) ≡ c ∷ s
unfolding but_last
but_last-end c [] d = refl
but_last-end c (e ∷ s) d = ap (λ (t : Text). c ∷ t) (but_last-end e s d)

contains-Lacks : (c : ℕ) (s : Text) → Lacks c s → contains c s ≡ false
unfolding contains
contains-Lacks c [] h = refl
contains-Lacks c (d ∷ s) h = ground (arith, contains-Lacks c s h.1)

module _ (parsers : Parsers) where
  unquote-quoted :
      (value : Text)
      → Lacks b'\'' value
      → unquote_env_value parsers (b'\'' ∷ (value ++ b'\'' ∷ [])) ≡ ok value
  unfolding unquote_env_value single_quoted contains last but_last
  unquote-quoted [] h = refl
  unquote-quoted (c ∷ s) h =
      rw (last-end c s b'\'', but_last-end c s b'\'', contains-Lacks b'\'' (c ∷ s) h)

  module _ (u : Runes) (words : Words u) where
    read_quoted :
        (values : Env) (c : ℕ) (key value : Text)
        → valid_env_key u (c ∷ key) ≡ true
        → Lacks b'\'' value
        → entry parsers u values (quoted_line (c ∷ key) value) ≡ ok (insert (c ∷ key) value values)
    unfolding entry assign value_of
    read_quoted values c key value hk hv =
        let plain : All (Plain u words) (c ∷ key) = valid_env_key-Plain u words (c ∷ key) hk in
        let lacks : Lacks b'=' (c ∷ key) = Plain-Lacks u words (c ∷ key) plain in
        let trimmed : trim_space (c ∷ key) ≡ c ∷ key =
          trim_space_solid (c ∷ key) (Plain-Solid u words (c ∷ key) plain) in
        let quotes : trim_space (b'\'' ∷ (value ++ b'\'' ∷ [])) ≡ b'\'' ∷ (value ++ b'\'' ∷ []) =
          trim_space_ends b'\'' value b'\'' space-quote space-quote in
        let hash : (c == b'#') ≡ false = plain.0.2 in
        rw (
          hash,
          cut_byte-append b'=' (c ∷ key) (b'\'' ∷ (value ++ b'\'' ∷ [])) lacks,
          trimmed,
          quotes,
          hk,
          unquote-quoted value hv,
        )

    parse_quoted :
        (values : Env) (key value : Text)
        → valid_env_key u key ≡ true
        → Lacks b'\'' value
        → byte_length (quoted_line key value) ≤ max_line_bytes
        → parse_line parsers u values (quoted_line key value) ≡ ok (insert key value values)
    unfolding parse_line valid_env_key
    parse_quoted values [] value hk hv size = absurd (cc)
    parse_quoted values (c ∷ key) value hk hv size =
        let short : ltb max_line_bytes (byte_length (quoted_line (c ∷ key) value)) ≡ false =
          ground arith in
        let solid : is_space c ≡ false = (valid_env_key-Plain u words (c ∷ key) hk).0.0 in
        let kept : trim_space (quoted_line (c ∷ key) value) ≡ quoted_line (c ∷ key) value =
          subst (λ (t : Text). trim_space (c ∷ t) ≡ c ∷ t)
            (append_assoc key (b'=' ∷ b'\'' ∷ value) (b'\'' ∷ []))
            (trim_space_ends c (key ++ b'=' ∷ b'\'' ∷ value) b'\'' solid space-quote) in
        rw (short, kept) (read_quoted values c key value hk hv)

-- An entry that a single-quoted line can hold.
abbrev pub Quotable : Runes → Text × Text → Type 0
Quotable u (key, value) =
    (valid_env_key u key ≡ true)
    × Lacks b'\'' value
    × Lacks b'\n' value
    × (byte_length (quoted_line key value) ≤ max_line_bytes)

-- The file of the entries, and the map of them, a later one over an earlier one.
abbrev pub quoted_lines : List (Text × Text) → List Text
quoted_lines [] = []
quoted_lines ((key, value) ∷ entries) = quoted_line key value ∷ quoted_lines entries

abbrev pub bound_after : Env → List (Text × Text) → Env
bound_after values [] = values
bound_after values ((key, value) ∷ entries) = bound_after (insert key value values) entries

module _ (parsers : Parsers) (u : Runes) (words : Words u) where
  line-Lacks : (e : Text × Text) → Quotable u e → Lacks b'\n' (quoted_line e.0 e.1)
  unfolding is_space
  line-Lacks (key, value) (hk, hv, hn, size) =
      All-append (λ c. c ≢ b'\n') key _
        (solid key (Plain-Solid u words key (valid_env_key-Plain u words key hk)))
        (omega arith, (omega arith, All-append (λ c. c ≢ b'\n') value _ hn (omega arith, tt)))
    where
      solid : (s : Text) → All (λ c. is_space c ≡ false) s → Lacks b'\n' s
      solid [] h = tt
      solid (c ∷ s) h = (ground (arith, h.0), solid s h.1)

  read_lines :
      (values : Env) (entries : List (Text × Text))
      → All (Quotable u) entries
      → parse_lines parsers u values (split b'\n' (terminated (quoted_lines entries)))
        ≡ ok (bound_after values entries)
  unfolding parse_lines terminated split parse_line entry trim_space trim_left trim_right
  read_lines values [] h = refl
  read_lines values ((key, value) ∷ entries) h =
      rw
        (
          split-append b'\n' (quoted_line key value) (terminated (quoted_lines entries))
              (line-Lacks (key, value) h.0),
          parse_quoted parsers u words values key value h.0.0 h.0.1 h.0.3,
        )
        (read_lines (insert key value values) entries h.1)

  -- Letters and digits being no spaces, equals signs or hashes: a file of lines KEY='value', with
  -- valid keys, values without quotes and line breaks, and no line of 64 KB, is read as the map of
  -- its entries, a later one over an earlier one.
  pub parse_env-quoted :
      (entries : List (Text × Text))
      → All (Quotable u) entries
      → parse_env parsers u (terminated (quoted_lines entries)) ≡ ok (bound_after [] entries)
  unfolding parse_env
  parse_env-quoted entries h = read_lines [] entries h
