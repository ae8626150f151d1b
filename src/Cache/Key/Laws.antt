-- ===== src/Cache/Key/Laws.antt =====
-- The text that is hashed to a cache key can be split again.
use gitrepo_csi_driver.Base.{◌≡◌, refl, ap₂, ◌∙◌, List, [], ◌∷◌, ◌++◌, All}
use gitrepo_csi_driver.Text.{Text, split}
use gitrepo_csi_driver.Text.Split.{Lacks, split-append, split-Lacks}
use gitrepo_csi_driver.Cache.Key.{key_input}

-- What the cache hashes for parts without newlines is split at the newlines into the parts and an empty
-- rest.
pub split-key_input :
    (ps : List Text) → All (Lacks b'\n') ps → split (key_input ps) b'\n' ≡ ps ++ [] ∷ []
unfolding key_input split
split-key_input [] h = refl
split-key_input (p ∷ ps) (h, hs) =
    split-append p (key_input ps) b'\n' ∙ ap₂ ◌++◌ (split-Lacks p b'\n' h) (split-key_input ps hs)
