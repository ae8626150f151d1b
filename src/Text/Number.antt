-- ===== src/Text/Number.antt =====
-- `strconv.Atoi` and `strconv.ParseUint` in base ten, and the letter case of ASCII text.
use gitrepo_csi_driver.Base.{
  ℕ, zero, suc, ◌+◌, ◌-◌, ◌*◌, ◌^◌, Bool, ◌&&◌, [], ◌∷◌, map, Option, none, some, ltb, leb, ◌==◌,
  if◌then◌else◌, ◌≡◌, refl,
}
use gitrepo_csi_driver.Base.Int.{ℤ, pos, negsuc}
use gitrepo_csi_driver.Text.{Text, codes, same}

unfoldable pub is_digit : ℕ → Bool
is_digit c = leb b'0' c && leb c b'9'

-- The digits behind the number `n` that was read so far.
unfoldable pub read_digits : ℕ → Text → Option ℕ
unfolding is_digit
read_digits n [] = some n
read_digits n (c ∷ s) =
    let rest = read_digits (n * 10 + (c - b'0')) s in if is_digit c then rest else none

-- One or more digits.
unfoldable pub read_number : Text → Option ℕ
unfolding read_digits
read_number [] = none
read_number (c ∷ s) = read_digits 0 (c ∷ s)

-- An `int` has 64 bits: from -2^63 to 2^63 - 1.
positive : Option ℕ → Option ℤ
positive none = none
positive (some n) = if ltb n (2 ^ 63) then some (pos n) else none

negative : Option ℕ → Option ℤ
negative none = none
negative (some zero) = some (pos zero)
negative (some (suc n)) = if ltb n (2 ^ 63) then some (negsuc n) else none

-- `strconv.Atoi`; `none` is its error.
unfoldable pub atoi : Text → Option ℤ
unfolding read_number positive negative
atoi [] = none
atoi (c ∷ s) =
    if c == b'-'
    then negative (read_number s)
    else if c == b'+'
    then positive (read_number s)
    else positive (read_number (c ∷ s))

below_u32 : Option ℕ → Option ℕ
below_u32 none = none
below_u32 (some n) = if ltb n (2 ^ 32) then some n else none

-- `strconv.ParseUint(s, 10, 32)`
unfoldable pub parse_uint32 : Text → Option ℕ
unfolding read_number below_u32
parse_uint32 s = below_u32 (read_number s)

lower : ℕ → ℕ
lower c = if leb b'A' c && leb c b'Z' then c + 32 else c

-- `strings.ToLower` on ASCII. No other character has an ASCII lower case but 'K' (the Kelvin sign)
-- and the dotted 'I', neither of which occurs in the words that the driver compares with.
unfoldable pub to_lower : Text → Text
unfolding lower
to_lower s = map lower s

-- `strings.EqualFold(s, t)` for a word `t` of ASCII letters other than 'k' and 's', which alone have
-- other characters in their fold.
unfoldable pub equal_fold : Text → Text → Bool
unfolding to_lower same
equal_fold s t = same (to_lower s) (to_lower t)

atoi_tests :
    (atoi (codes "042") ≡ some (pos 42))
    × (atoi (codes "-3") ≡ some (negsuc 2))
    × (atoi (codes "+7") ≡ some (pos 7))
    × (atoi (codes "9223372036854775808") ≡ none)
    × (atoi (codes "1_0") ≡ none)
unfolding atoi
atoi_tests = (refl, refl, refl, refl, refl)
