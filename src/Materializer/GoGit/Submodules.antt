-- ===== src/Materializer/GoGit/Submodules.antt =====
-- `exportSubmodules`, `cloneAndExport` and `parseGitModules` of pkg/materializer/gogit.go.
use gitrepo_csi_driver.Materializer.Backend.{public_dir_perm}
use gitrepo_csi_driver.Base.{
  ◌==◌, Bool, true, false, not, ◌||◌, List, [], ◌∷◌, Result, ok, err, Error, wrapf, Option, none,
  some, if◌then◌else◌, is_nil,
}
use gitrepo_csi_driver.Base.Int.{ℤ}
use gitrepo_csi_driver.Text.{Text, codes, same}
use gitrepo_csi_driver.Text.Number.{to_lower}
use gitrepo_csi_driver.Materializer.Path.{safe_join}
use gitrepo_csi_driver.Materializer.Limits.{Count, add_counts}
use gitrepo_csi_driver.Materializer.Copy.{make_dir}
use gitrepo_csi_driver.Materializer.Action.{Action, ◌>>=◌, ◌>>◌, lift, call, wrap, wrap_result}
use gitrepo_csi_driver.Materializer.GoGit.Library.{
  GitFile, TreeEntry, Section, Call, cloned, GoGit, System, submodule_mode,
}
use gitrepo_csi_driver.Materializer.GoGit.Export.{write, export_tree}

-- The long s, whose fold is that of 's'.
unfoldable pub fold_long_s : Text → Text
fold_long_s [] = []
fold_long_s (a ∷ []) = a ∷ []
fold_long_s (a ∷ b ∷ s) =
    let later = fold_long_s (b ∷ s) in
    let behind = fold_long_s s in
    if a == 0xC5 then (if b == 0xBF then b's' ∷ behind else a ∷ later) else a ∷ later

-- `strings.EqualFold(name, "submodule")`
unfoldable pub is_submodule_section : Text → Bool
is_submodule_section name = same (to_lower (fold_long_s name)) (codes "submodule")

abbrev pub Modules : Type 0
Modules = List (Text × Text)

-- The map's entry for a path; the last assignment stands first.
unfoldable pub url_of : Modules → Text → Option Text
url_of [] path = none
url_of ((p, url) ∷ modules) path = if same p path then some url else url_of modules path

unfoldable pub add_subsection : (Text → Text) → Modules → Modules
add_subsection options modules =
    let path = options (codes "path") in
    let url = options (codes "url") in
    if is_nil path || is_nil url then modules else (path, url) ∷ modules

unfoldable pub add_subsections : List (Text → Text) → Modules → Modules
add_subsections [] modules = modules
add_subsections (sub ∷ subs) modules = add_subsections subs (add_subsection sub modules)

unfoldable pub add_sections : List Section → Modules → Modules
add_sections [] modules = modules
add_sections (sec ∷ secs) modules =
    if is_submodule_section sec.name
    then add_sections secs (add_subsections sec.subsections modules)
    else add_sections secs modules

abbrev pub no_count : Count
no_count = record { files = 0; size = 0 }

module _ (sys : System) (lib : GoGit) where
  unfoldable pub parse_contents : Text → Action Call Modules
  parse_contents contents = do
    sections ← wrap "parse .gitmodules: %w" (lift (lib.decode contents))
    lift (ok (add_sections sections []))

  unfoldable pub parse_modules_file : Option GitFile → Action Call Modules
  parse_modules_file none = lift (ok [])
  parse_modules_file (some f) = lift f.reader >>= parse_contents

  unfoldable pub parse_git_modules : lib.Tree → Action Call Modules
  parse_git_modules tree = lift (lib.file tree (codes ".gitmodules")) >>= parse_modules_file

  -- HEAD's commit, in place of one that gave an error.
  unfoldable pub head_commit : lib.Repository → Error → Result lib.Commit
  head_commit repo e = elim (lib.head repo) [
    | err _ ↦ err (wrapf "resolve commit: %w" e)
    | ok ref ↦ wrap_result "resolve commit: %w" (lib.commit_object repo ref)
  ]

  -- The commit that a submodule is exported at: HEAD's where the pinned one is not there.
  unfoldable pub commit_or_head : lib.Repository → Text → Result lib.Commit
  commit_or_head repo commit_hash = elim (lib.commit_object repo commit_hash) [
    | ok commit ↦ ok commit
    | err e ↦ head_commit repo e
  ]

  unfoldable pub clone_and_export :
      Text → Text → Text → Option (Text × Text) → ℤ → Action Call Count
  clone_and_export url commit_hash dest_dir auth depth = do
    repo ← wrap "clone failed: %w" (
        call lib.clone (
          cloned (record {
            url = url;
            depth = depth;
            no_checkout = true;
            reference_name = [];
            single_branch = false;
            auth = auth;
          })))
    commit ← lift (commit_or_head repo commit_hash)
    tree ← lift (lib.commit_tree commit)
    export_tree sys lib dest_dir tree

  module _ (content_dir : Text) (auth : Option (Text × Text)) (max_depth : ℤ) where
    -- A submodule whose URL is known.
    unfoldable pub export_submodule : TreeEntry → Text → Count → Action Call Count
    export_submodule entry url c = do
      sub_dir ← lift (safe_join content_dir entry.name)
      write sys (make_dir sub_dir public_dir_perm)
      d ← wrap "submodule %s: %w" (clone_and_export url entry.hash sub_dir auth max_depth)
      lift (ok (add_counts c d))

    unfoldable pub export_known : TreeEntry → Option Text → Count → Action Call Count
    export_known entry none c = lift (ok c)
    export_known entry (some url) c = export_submodule entry url c

    unfoldable pub export_entry : Modules → TreeEntry → Count → Action Call Count
    export_entry modules entry c =
        if not (entry.mode == submodule_mode)
        then lift (ok c)
        else export_known entry (url_of modules entry.name) c

    unfoldable pub export_entries :
        Modules → List TreeEntry → Result (Unit {0}) → Count → Action Call Count
    export_entries modules [] end c = lift end >> lift (ok c)
    export_entries modules (entry ∷ entries) end c =
        export_entry modules entry c >>= (λ d. export_entries modules entries end d)

    unfoldable pub export_modules : lib.Tree → Modules → Action Call Count
    export_modules tree modules =
        let (entries, end) = lib.entries tree in
        if is_nil modules then lift (ok no_count) else export_entries modules entries end no_count

    unfoldable pub export_submodules : lib.Tree → Action Call Count
    export_submodules tree = parse_git_modules tree >>= export_modules tree
