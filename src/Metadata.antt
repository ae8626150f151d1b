-- ===== src/Metadata.antt =====
-- `Write` of pkg/metadata/write.go. Go goes over a map in any order: the order is a parameter. So is the
-- text of the present time.
pub mod Laws
pub mod Outcome
use gitrepo_csi_driver.Base.{ℕ, List, [], ◌∷◌, ◌++◌, Result, ok, map}
use gitrepo_csi_driver.Text.{Text, codes}
use gitrepo_csi_driver.Paths.{join_path}
use gitrepo_csi_driver.Materializer.Action.{Action, ◌>>◌, lift, call}
use gitrepo_csi_driver.NodePlugin.Pipeline.{Inputs, format_bool}

pub data Call : Type 0 where
  made_all : (path : Text) → (mode : ℕ) → Call
  wrote_file : (path : Text) → (mode : ℕ) → (content : Text) → Call

abbrev pub Fields : Type 0
Fields = List (Text × Text)

-- The names of the files, and their values.
unfoldable pub fields : Inputs → Text → Fields
fields inputs now =
    (codes "repo", inputs.repo)
    ∷ (codes "requested-revision", inputs.requested_rev)
    ∷ (codes "resolved-revision", inputs.resolved_rev)
    ∷ (codes "mounted-at", now)
    ∷ (codes "policy", inputs.policy)
    ∷ (codes "submodules-enabled", format_bool inputs.submodules)
    ∷ (codes "credential-profile", inputs.credential_profile)
    ∷ []

unfoldable pub meta_dir : Text → Text
meta_dir root = join_path root (codes ".gitcontent")

abbrev pub file_of : Text → Text × Text → Call
file_of meta (name, value) = wrote_file (join_path meta name) 0o644 (value ++ b'\n' ∷ [])

module _ (answer : List Call → Result (Unit {0})) where
  unfoldable pub write_fields : Text → Fields → Action Call (Unit {0})
  write_fields meta [] = lift (ok tt)
  write_fields meta (field ∷ rest) = call answer (file_of meta field) >> write_fields meta rest

  unfoldable pub write : (Fields → Fields) → Text → Inputs → Text → Action Call (Unit {0})
  write order root inputs now =
      call answer (made_all (meta_dir root) 0o755)
      >> write_fields (meta_dir root) (order (fields inputs now))
