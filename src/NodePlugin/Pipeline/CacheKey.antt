-- ===== src/NodePlugin/Pipeline/CacheKey.antt =====
-- Requests for different content have different cache directories.
use gitrepo_csi_driver.Base.{
  ◌≢◌, ◌⊎◌, inl, inr, Bool-cases, ◌≡◌, refl, sym, ap, ◌∙◌, Bool, true, false, [], ◌∷◌, ◌++◌, All,
  all, not, ◌==◌, &&_elim, arith,
}
use gitrepo_csi_driver.Cache.Key.{key_input, key}
use gitrepo_csi_driver.Cache.Key.Laws.{split-key_input}
use gitrepo_csi_driver.NodePlugin.Pipeline.{key_parts, format_bool}
use gitrepo_csi_driver.Text.{same, Text, codes, split}
use gitrepo_csi_driver.Text.Search.{eq_of_same, ne_of_same}
use gitrepo_csi_driver.Text.Split.{Lacks}
use gitrepo_csi_driver.Volume.{Attributes}

-- The text parts of a key that a client chooses hold no newline.
abbrev pub HasOneLine : Attributes → Text → Type 0
HasOneLine attrs profile =
    Lacks b'\n' attrs.repo
    × Lacks b'\n' attrs.revision
    × Lacks b'\n' attrs.path
    × Lacks b'\n' profile

pub Lacks-by_test : (s : Text) → all (λ c. not (c == b'\n')) s ≡ true → Lacks b'\n' s
Lacks-by_test [] h = tt
Lacks-by_test (c ∷ s) h =
    let (here, later) = &&_elim (not (c == b'\n')) (all (λ d. not (d == b'\n')) s) h in
    ((λ e. ground arith), Lacks-by_test s later)

flag-Lacks :
    (b : Bool)
    → Lacks b'\n' (codes "submodules=" ++ format_bool b)
      × Lacks b'\n' (codes "lfs=" ++ format_bool b)
flag-Lacks true = (
  Lacks-by_test (codes "submodules=" ++ format_bool true) refl,
  Lacks-by_test (codes "lfs=" ++ format_bool true) refl,
)
flag-Lacks false = (
  Lacks-by_test (codes "submodules=" ++ format_bool false) refl,
  Lacks-by_test (codes "lfs=" ++ format_bool false) refl,
)

flag_inj : (name : Text) (a b : Bool) → name ++ format_bool a ≡ name ++ format_bool b → a ≡ b
flag_inj [] true true h = refl
flag_inj [] true false h = cc
flag_inj [] false true h = cc
flag_inj [] false false h = refl
flag_inj (c ∷ name) a b h = flag_inj name a b (let k = h in cc)

key_parts-Lacks :
    (attrs : Attributes) (profile : Text)
    → HasOneLine attrs profile
    → All (Lacks b'\n') (key_parts attrs profile)
unfolding key_parts
key_parts-Lacks attrs profile (r, v, p, c) =
    (r, (v, (p, ((flag-Lacks attrs.submodules).0, ((flag-Lacks attrs.lfs).1, (c, tt))))))

-- What of a request decides about its content.
pub record SameContent (a b : Attributes) (p q : Text) : Type 0 where
  pub repo : a.repo ≡ b.repo
  pub revision : a.revision ≡ b.revision
  pub path : a.path ≡ b.path
  pub submodules : a.submodules ≡ b.submodules
  pub lfs : a.lfs ≡ b.lfs
  pub profile : p ≡ q

parts-SameContent :
    (a b : Attributes) (p q : Text)
    → key_parts a p ++ [] ∷ [] ≡ key_parts b q ++ [] ∷ []
    → SameContent a b p q
unfolding key_parts
parts-SameContent a b p q h = record {
  repo = cc;
  revision = cc;
  path = cc;
  submodules = flag_inj (codes "submodules=") a.submodules b.submodules (let k = h in cc);
  lfs = flag_inj (codes "lfs=") a.lfs b.lfs (let k = h in cc);
  profile = cc;
}

-- Two requests whose texts hold no newline have one cache key only if they agree on the repository, the
-- revision, the path, submodules, LFS and the credential profile, or else the two texts that are hashed
-- are a collision of the hash.
pub key-SameContent :
    (sha256_hex : Text → Text) (a b : Attributes) (p q : Text)
    → HasOneLine a p
    → HasOneLine b q
    → key sha256_hex (key_parts a p) ≡ key sha256_hex (key_parts b q)
    → SameContent a b p q
      ⊎ ((key_input (key_parts a p) ≢ key_input (key_parts b q))
          × (sha256_hex (key_input (key_parts a p)) ≡ sha256_hex (key_input (key_parts b q))))
unfolding key
key-SameContent sha256_hex a b p q h k e =
    let s = key_input (key_parts a p) in
    let t = key_input (key_parts b q) in
    elim (Bool-cases (same s t)) [
      | inl i ↦ inl (
          parts-SameContent a b p q (
            sym (split-key_input (key_parts a p) (key_parts-Lacks a p h))
            ∙ ap (λ s. split s b'\n') (eq_of_same s t i)
            ∙ split-key_input (key_parts b q) (key_parts-Lacks b q k)))
      | inr i ↦ inr (ne_of_same s t i, e)
    ]
