-- ===== src/Library.antt =====
-- The functions of Go's standard library that are parameters of the model: the URL parser, shell
-- patterns and regular expressions. The theorems hold for all functions in their place.
use gitrepo_csi_driver.Base.{Bool, Option}
use gitrepo_csi_driver.Text.{Text}

-- What the driver reads of a `url.URL`: `Scheme` and `Hostname()`.
pub record Url : Type 0 where
  pub scheme : Text
  pub hostname : Text

pub record Library : Type 0 where
  -- `url.Parse`; `none` is its error.
  pub url_parse : Text → Option Url
  -- `filepath.Match(pattern, name)`; the driver ignores its error, which comes with false.
  pub path_match : Text → Text → Bool
  -- `regexp.Compile(raw)` and the `MatchString` of its result.
  pub regexp_compile : Text → Option (Text → Bool)
