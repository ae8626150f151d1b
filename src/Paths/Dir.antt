-- ===== src/Paths/Dir.antt =====
-- The parent directory of an absolute path, and paths joined to one, are absolute.
use gitrepo_csi_driver.Base.{ℕ, ◌≡◌, refl, ◌∙◌, true, false, [], ◌∷◌, ◌++◌, arith}
use gitrepo_csi_driver.Paths.{is_abs, join_path, up_to_slash, dir}
use gitrepo_csi_driver.Paths.Below.{is_abs-clean}
use gitrepo_csi_driver.Text.{Text, slash}

up_to_slash-is_abs : (s : Text) → is_abs s ≡ true → is_abs (up_to_slash s) ≡ true
unfolding is_abs up_to_slash
up_to_slash-is_abs [] h = cc
up_to_slash-is_abs (c ∷ s) h = ground arith

pub dir-is_abs : (s : Text) → is_abs s ≡ true → is_abs (dir s) ≡ true
unfolding dir
dir-is_abs s h = is_abs-clean (up_to_slash s) ∙ up_to_slash-is_abs s h

head_is_abs : (c : ℕ) (s t : Text) → is_abs (c ∷ s) ≡ is_abs (c ∷ t)
unfolding is_abs
head_is_abs c s t = refl

pub join_path-is_abs : (a b : Text) → is_abs a ≡ true → is_abs (join_path a b) ≡ true
unfolding join_path
join_path-is_abs [] b h = let e : is_abs [] ≡ false = unfold is_abs in refl in cc
join_path-is_abs (c ∷ a) b h =
    is_abs-clean (c ∷ (a ++ slash ∷ b)) ∙ head_is_abs c (a ++ slash ∷ b) a ∙ h
