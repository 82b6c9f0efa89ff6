-- ===== src/Net/Url.antt =====
-- What the source reads of a parsed `url.URL`. `User` is there or not; `hostname` is `Hostname()`.
use termcall.Prelude.{Bool, Text}

pub record Url : Type 0 where
  pub scheme : Text
  pub has_user : Bool
  pub host : Text
  pub hostname : Text
  pub path : Text
  pub raw_query : Text
  pub fragment : Text
