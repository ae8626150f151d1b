-- ===== src/Metadata/Laws.antt =====
-- What `Write` writes, whatever the order.
use gitrepo_csi_driver.Base.{
  String, if◌then◌else◌, ◌≡◌, refl, sym, ap, ◌∙◌, List, [], ◌∷◌, ◌++◌, append-nil, append_assoc,
  Result, ok, map,
}
use gitrepo_csi_driver.Materializer.Action.{◌>>◌, ◌>>=◌, lift, call}
use gitrepo_csi_driver.Metadata.{
  wrote_file, Call, made_all, Fields, fields, meta_dir, file_of, write_fields, write,
}
use gitrepo_csi_driver.NodePlugin.Pipeline.{Inputs}
use gitrepo_csi_driver.Paths.{join_path}
use gitrepo_csi_driver.Text.{codes, Text}
use mathlib.Core.List.{Perm}
use mathlib.Core.Path.{subst}
use mathlib.Core.List.Perm

module _ (answer : List Call → Result (Unit {0}))
    (succeeds : (trace : List Call) → answer trace ≡ ok tt) where
  write_fields-map :
      (meta : Text) (fs : Fields) (trace : List Call)
      → write_fields answer meta fs trace ≡ (ok tt, trace ++ map (file_of meta) fs)
  unfolding write_fields ◌>>◌ ◌>>=◌ lift call
  write_fields-map meta [] trace = ap (λ t. (ok tt, t)) (sym (append-nil trace))
  write_fields-map meta (f ∷ fs) trace = rw (succeeds (trace ++ file_of meta f ∷ [])) (
      write_fields-map meta fs (trace ++ file_of meta f ∷ [])
      ∙ ap (λ t. (ok tt, t)) (append_assoc trace (file_of meta f ∷ []) (map (file_of meta) fs)))

-- A readable file with a text and a newline.
abbrev pub line_at : Text → String → Text → Call
line_at root name text =
    wrote_file (join_path (join_path root (codes ".gitcontent")) (codes name)) 0o644
      (text ++ codes "\n")

-- The directory, and the file of each of the inputs and of the time.
abbrev pub description : Text → Inputs → Text → List Call
description root inputs now =
    made_all (join_path root (codes ".gitcontent")) 0o755
    ∷ line_at root "repo" inputs.repo
    ∷ line_at root "requested-revision" inputs.requested_rev
    ∷ line_at root "resolved-revision" inputs.resolved_rev
    ∷ line_at root "mounted-at" now
    ∷ line_at root "policy" inputs.policy
    ∷ line_at root "submodules-enabled" (if inputs.submodules then codes "true" else codes "false")
    ∷ line_at root "credential-profile" inputs.credential_profile
    ∷ []

fields-description :
    (root : Text) (inputs : Inputs) (now : Text)
    → made_all (meta_dir root) 0o755 ∷ map (file_of (meta_dir root)) (fields inputs now)
      ≡ description root inputs now
unfolding fields meta_dir
fields-description root inputs now = refl

-- Where no call fails and the order leaves out no field and doubles none, `write` succeeds: it makes the
-- directory .gitcontent, and writes there, in some order and nothing else, the files repo,
-- requested-revision, resolved-revision, mounted-at, policy, submodules-enabled and credential-profile,
-- each with its input, the time, or "true" or "false", and a newline, and readable for all.
pub write-Perm :
    (answer : List Call → Result (Unit {0})) (order : Fields → Fields) (root : Text)
    (inputs : Inputs) (now : Text)
    → ((trace : List Call) → answer trace ≡ ok tt)
    → ((fs : Fields) → Perm (order fs) fs)
    → ((write answer order root inputs now []).0 ≡ ok tt)
      × Perm (write answer order root inputs now []).1 (description root inputs now)
unfolding write ◌>>◌ ◌>>=◌ lift call
write-Perm answer order root inputs now succeeds permutes =
    let written =
      Perm.cons (made_all (meta_dir root) 0o755)
        (Perm.map (file_of (meta_dir root)) (permutes (fields inputs now))) in
    rw
      (
        succeeds (made_all (meta_dir root) 0o755 ∷ []),
        write_fields-map answer succeeds (meta_dir root) (order (fields inputs now))
            (made_all (meta_dir root) 0o755 ∷ []),
      )
      (refl, subst (Perm _) (fields-description root inputs now) written)
