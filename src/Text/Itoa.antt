-- ===== src/Text/Itoa.antt =====
-- `strconv.Itoa`. An `int` has 64 bits, and so at most nineteen digits, for which the fuel is enough.
use gitrepo_csi_driver.Base.{
  ℕ, zero, suc, ◌+◌, ◌/◌, ◌%◌, [], ◌∷◌, ltb, if◌then◌else◌, ◌≡◌, refl, ◌*◌, ◌-◌, ◌^◌, ◌<◌, ◌≤◌,
  Bool-cases, inl, inr, ap, ◌∙◌, arith, true, false, ◌&&◌, leb,
}
use gitrepo_csi_driver.Base.Int.{ℤ, pos, negsuc}
use gitrepo_csi_driver.Text.{Text, codes}
use gitrepo_csi_driver.Text.Number.{is_digit, read_digits}

-- The digits of a number in front of others.
unfoldable pub digits : ℕ → ℕ → Text → Text
digits zero n s = s
digits (suc fuel) n s =
    let c = b'0' + n % 10 in
    let rest = digits fuel (n / 10) (c ∷ s) in if ltb n 10 then c ∷ s else rest

unfoldable pub itoa : ℤ → Text
unfolding digits
itoa (pos n) = digits 19 n []
itoa (negsuc n) = b'-' ∷ digits 19 (suc n) []

itoa_tests :
    (itoa (pos 0) ≡ codes "0")
    × (itoa (pos 9223372036854775807) ≡ codes "9223372036854775807")
    × (itoa (negsuc 41) ≡ codes "-42")
unfolding itoa
itoa_tests = (refl, refl, refl)

digit_step :
    (m n : ℕ) (s : Text) → read_digits m ((b'0' + n % 10) ∷ s) ≡ read_digits (m * 10 + n % 10) s
unfolding read_digits is_digit
digit_step m n s =
    let e : (leb b'0' (b'0' + n % 10) && leb (b'0' + n % 10) b'9') ≡ true = ground arith in
    let k : m * 10 + (b'0' + n % 10 - b'0') ≡ m * 10 + n % 10 = omega arith in rw (e, k) refl

-- As much fuel as the number has digits is enough to write all of them.
read_digits-digits :
    (fuel n : ℕ) (s : Text)
    → n < 10 ^ fuel
    → 1 ≤ fuel
    → read_digits 0 (digits fuel n s) ≡ read_digits n s
unfolding digits
read_digits-digits zero n s h f = absurd (omega arith)
read_digits-digits (suc fuel) n s h f = elim (Bool-cases (ltb n 10)) [
  | inl e ↦ rw (e) (
      digit_step 0 n s
      ∙ ap (λ m. read_digits m s) (let k : 0 * 10 + n % 10 ≡ n = ground arith in k))
  | inr e ↦ rw (e) (
      read_digits-digits fuel (n / 10) ((b'0' + n % 10) ∷ s) (smaller fuel n h)
        (some_fuel fuel n h e)
      ∙ digit_step (n / 10) n s
      ∙ ap (λ m. read_digits m s) (let k : n / 10 * 10 + n % 10 ≡ n = omega arith in k))
]
  where
    smaller : (fuel n : ℕ) → n < 10 ^ suc fuel → n / 10 < 10 ^ fuel
    smaller fuel n h = omega arith

    some_fuel : (fuel n : ℕ) → n < 10 ^ suc fuel → ltb n 10 ≡ false → 1 ≤ fuel
    some_fuel zero n h e = ground arith
    some_fuel (suc fuel) n h e = omega arith
