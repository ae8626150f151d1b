-- ===== src/Files/Mode.antt =====
-- File modes: the permission bits, and masks that take bits away.
use gitrepo_csi_driver.Base.{
  ℕ, zero, suc, ◌%◌, ◌<◌, ◌≡◌, refl, Bool, true, ◌&&◌, bit_and, ◌==◌, ==_iff, &&_elim, arith,
  Bool-cases, inl, inr,
}

-- `FileMode.Perm()`: the lowest nine bits, 0o777.
unfoldable pub perm : ℕ → ℕ
perm mode = mode % 512

-- r-xr-xr-x
abbrev pub read_execute : ℕ
read_execute = 0o555

-- -w--w--w-
abbrev pub write_bits : ℕ
write_bits = 0o222

-- `mode.Perm() & 0o555`
unfoldable pub read_only_perm : ℕ → ℕ
unfolding perm
read_only_perm mode = bit_and (perm mode) read_execute

-- Nobody may write.
abbrev pub IsReadOnly : ℕ → Type 0
IsReadOnly mode = bit_and mode write_bits ≡ 0

-- The test at every mode below a bound.
masked_below : ℕ → Bool
masked_below zero = true
masked_below (suc n) = (bit_and (bit_and n read_execute) write_bits == 0) && masked_below n

masked_all : masked_below 512 ≡ true
unfolding masked_below
masked_all = refl

masked_at :
    (n m : ℕ) → masked_below n ≡ true → m < n → bit_and (bit_and m read_execute) write_bits ≡ 0
unfolding masked_below
masked_at zero m h l = absurd (omega arith)
masked_at (suc n) m h l =
    let (here, later) =
      &&_elim (bit_and (bit_and n read_execute) write_bits == 0) (masked_below n) h in
    elim (Bool-cases (m == n)) [
      | inl e ↦
          rw ((==_iff m n).0 e) ((==_iff (bit_and (bit_and n read_execute) write_bits) 0).0 here)
      | inr e ↦ masked_at n m later (ground arith)
    ]

pub read_only_perm-IsReadOnly : (mode : ℕ) → IsReadOnly (read_only_perm mode)
unfolding read_only_perm perm
read_only_perm-IsReadOnly mode = masked_at 512 (mode % 512) masked_all (omega arith)
