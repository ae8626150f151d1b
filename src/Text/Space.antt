-- ===== src/Text/Space.antt =====
-- `strings.TrimSpace`. White space is Unicode's, so some of it takes two or three bytes of UTF-8.
pub mod Laws
use gitrepo_csi_driver.Base.{
  ℕ, zero, suc, Bool, true, false, List, [], ◌∷◌, map, reverse, length, if◌then◌else◌,
}
use gitrepo_csi_driver.Text.{Text, has_prefix}

-- The encodings of the white space of `unicode.IsSpace`.
abbrev pub spaces : List Text
spaces =
    (b'\t' ∷ [])
    ∷ (b'\n' ∷ [])
    ∷ (11 ∷ [])
    ∷ (12 ∷ [])
    ∷ (b'\r' ∷ [])
    ∷ (b' ' ∷ [])
    ∷ (0xc2 ∷ 0x85 ∷ [])
    ∷ (0xc2 ∷ 0xa0 ∷ [])
    ∷ (0xe1 ∷ 0x9a ∷ 0x80 ∷ [])
    ∷ (0xe2 ∷ 0x80 ∷ 0x80 ∷ [])
    ∷ (0xe2 ∷ 0x80 ∷ 0x81 ∷ [])
    ∷ (0xe2 ∷ 0x80 ∷ 0x82 ∷ [])
    ∷ (0xe2 ∷ 0x80 ∷ 0x83 ∷ [])
    ∷ (0xe2 ∷ 0x80 ∷ 0x84 ∷ [])
    ∷ (0xe2 ∷ 0x80 ∷ 0x85 ∷ [])
    ∷ (0xe2 ∷ 0x80 ∷ 0x86 ∷ [])
    ∷ (0xe2 ∷ 0x80 ∷ 0x87 ∷ [])
    ∷ (0xe2 ∷ 0x80 ∷ 0x88 ∷ [])
    ∷ (0xe2 ∷ 0x80 ∷ 0x89 ∷ [])
    ∷ (0xe2 ∷ 0x80 ∷ 0x8a ∷ [])
    ∷ (0xe2 ∷ 0x80 ∷ 0xa8 ∷ [])
    ∷ (0xe2 ∷ 0x80 ∷ 0xa9 ∷ [])
    ∷ (0xe2 ∷ 0x80 ∷ 0xaf ∷ [])
    ∷ (0xe2 ∷ 0x81 ∷ 0x9f ∷ [])
    ∷ (0xe3 ∷ 0x80 ∷ 0x80 ∷ [])
    ∷ []

-- How many bytes of white space the text begins with, of one character; 0 if it begins with none.
unfoldable pub space_width : List Text → Text → ℕ
space_width [] s = 0
space_width (e ∷ es) s = if has_prefix s e then length e else space_width es s

-- Drops `k` bytes, and then white space character by character.
unfoldable pub drop_spaces : List Text → ℕ → Text → Text
drop_spaces es k [] = []
drop_spaces es (suc k) (c ∷ s) = drop_spaces es k s
drop_spaces es zero (c ∷ s) = elim (space_width es (c ∷ s)) [
  | zero ↦ c ∷ s
  | suc k ↦ drop_spaces es k s
]

unfoldable pub trim_left : Text → Text
trim_left = drop_spaces spaces 0

-- From the end, the encodings are met backwards.
unfoldable pub trim_right : Text → Text
trim_right s = reverse (drop_spaces (map reverse spaces) 0 (reverse s))

unfoldable pub trim_space : Text → Text
trim_space s = trim_right (trim_left s)
