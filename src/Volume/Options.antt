-- ===== src/Volume/Options.antt =====
-- The optional attributes of pkg/volume/attributes.go: numbers and flags. An empty one has its zero
-- value.
use gitrepo_csi_driver.Base.{
  Bool, true, false, List, [], ◌∷◌, if◌then◌else◌, any, Result, ok, err, errorf, Option, none, some,
  String,
}
use gitrepo_csi_driver.Base.Int.{ℤ, pos, ltb_ℤ, leb_ℤ}
use gitrepo_csi_driver.Text.{Text, codes, same}
use gitrepo_csi_driver.Text.Space.{trim_space}
use gitrepo_csi_driver.Text.Number.{atoi, to_lower}

unfoldable pub parse_depth : Text → Result ℤ
parse_depth [] = ok (pos 0)
parse_depth (c ∷ s) = elim (atoi (c ∷ s)) [
  | none ↦ err (errorf "volume attribute depth must be a positive integer" [])
  | some n ↦
      if leb_ℤ n (pos 0)
      then err (errorf "volume attribute depth must be a positive integer" [])
      else ok n
]

unfoldable pub parse_refresh : Text → Result ℤ
parse_refresh [] = ok (pos 0)
parse_refresh (c ∷ s) = elim (atoi (c ∷ s)) [
  | none ↦ err (errorf "volume attribute refreshSeconds must be a non-negative integer" [])
  | some n ↦
      if ltb_ℤ n (pos 0)
      then err (errorf "volume attribute refreshSeconds must be a non-negative integer" [])
      else ok n
]

abbrev one_of : List String → Text → Bool
one_of words v = any (λ w. same v (codes w)) words

-- `parseBool`; `none` is its error.
unfoldable pub parse_bool : Text → Option Bool
parse_bool v =
    let word = to_lower (trim_space v) in
    if one_of ("true" ∷ "1" ∷ "yes" ∷ []) word
    then some true
    else if one_of ("false" ∷ "0" ∷ "no" ∷ []) word
    then some false
    else none

parse_flag : String → Text → Result Bool
parse_flag message [] = ok false
parse_flag message (c ∷ s) = elim (parse_bool (c ∷ s)) [
  | none ↦ err (errorf message [])
  | some b ↦ ok b
]

unfoldable pub parse_submodules : Text → Result Bool
unfolding parse_flag
parse_submodules = parse_flag "volume attribute submodules must be true|false"

unfoldable pub parse_lfs : Text → Result Bool
unfolding parse_flag
parse_lfs = parse_flag "volume attribute lfs must be true|false"
