-- ===== src/Materializer/GoGit/Total.antt =====
-- The numbers that the go-git backend returns are those of the files that it made, and within the limits.
use gitrepo_csi_driver.Materializer.Backend.{public_dir_perm}
use gitrepo_csi_driver.Base.{
  ℕ, ◌+◌, ◌≡◌, refl, ◌==◌, not, List, [], ◌∷◌, Result, is_nil, Option, none, some, length, arith,
}
use gitrepo_csi_driver.Base.Int.{ℤ}
use gitrepo_csi_driver.Materializer.Action.{Action}
use gitrepo_csi_driver.Materializer.Copy.{make_dir, make_link, make_file}
use gitrepo_csi_driver.Materializer.GoGit.Counts.{
  Makes, Makes-call, Makes-nothing, Makes-lift, Makes-ok, Makes-wrap, Makes-if, Makes->>=, Makes->>,
  Makes-shift,
}
use gitrepo_csi_driver.Materializer.GoGit.Export.{
  write, export_symlink, export_regular_file, export_at, export_contained, export_file,
  export_files, export_tree,
}
use gitrepo_csi_driver.Materializer.GoGit.Library.{
  GitFile, TreeEntry, Call, cloned, wrote, GoGit, System, symlink_mode, submodule_mode,
}
use gitrepo_csi_driver.Materializer.GoGit.Submodules.{
  Modules, no_count, url_of, parse_contents, parse_modules_file, parse_git_modules,
  clone_and_export, export_submodule, export_known, export_entry, export_entries, export_modules,
  export_submodules,
}
use gitrepo_csi_driver.Materializer.Limits.{add_counts, Count}
use gitrepo_csi_driver.Materializer.Path.{safe_join}
use gitrepo_csi_driver.Paths.{dir}
use gitrepo_csi_driver.Text.{Text}
use gitrepo_csi_driver.Volume.RepoPath.{has_git_path_segment}
use mathlib.Core.Path.{subst}

add_none : (c : Count) → add_counts c no_count ≡ c
unfolding add_counts
add_none c = λ i. record {
  files = (let h : c.files + 0 ≡ c.files = omega arith in h) i;
  size = (let h : c.size + 0 ≡ c.size = omega arith in h) i;
}

pub from_none :
    (c : Count) (action : Action Call Count)
    → Makes no_count (λ d. d) action
    → Makes c (add_counts c) action
from_none c action m =
    subst (λ b. Makes b (add_counts c) action) (add_none c)
      (Makes-shift no_count c (λ d. d) action m)

module _ (sys : System) (lib : GoGit) where
  module _ (inner : Text) where
    symlink-Makes :
        (f : GitFile) (target : Text) (b : Count)
        → Makes b (λ _. b) (export_symlink sys f target inner)
    unfolding export_symlink write
    symlink-Makes f target b =
        Makes->>= b (λ _. b) (λ _. b) _ _ (Makes-lift b f.reader)
          (λ link.
            Makes->> b b (λ _. b) _ _ (Makes-lift b _)
              (Makes-nothing b sys.answer (wrote (make_link link target)) refl))

    -- What a file of `n` bytes adds.
    abbrev one_more : Count → ℕ → Count
    one_more c n = record { files = c.files + 1; size = c.size + n }

    regular-Makes :
        (f : GitFile) (target : Text) (c : Count)
        → Makes c (one_more c) (export_regular_file sys f target)
    unfolding export_regular_file write add_counts
    regular-Makes f target c =
        Makes->>= c (λ _. c) (one_more c) _ _ (Makes-lift c f.reader)
          (λ text.
            Makes->> c (one_more c (length text)) (one_more c) _ _
              (Makes-call c sys.answer (wrote (make_file target _ text)))
              (Makes-ok (one_more c) (length text)))

    export_at-Makes :
        (f : GitFile) (target : Text) (c : Count)
        → Makes c (λ d. d) (export_at sys lib inner f target c)
    unfolding export_at
    export_at-Makes f target c =
        Makes-if c (λ d. d) (f.mode == symlink_mode) _ _
          (Makes->> c c (λ d. d) _ _ (symlink-Makes f target c) (Makes-ok (λ d. d) c))
          (Makes-if c (λ d. d) (not (lib.is_file f.mode)) _ _ (Makes-ok (λ d. d) c)
            (Makes->>= c (one_more c) (λ d. d) _ _ (regular-Makes f target c)
              (λ n. Makes-ok (λ d. d) (one_more c n))))

    export_file-Makes : (f : GitFile) (c : Count) → Makes c (λ d. d) (export_file sys lib inner f c)
    unfolding export_file export_contained write
    export_file-Makes f c =
        Makes-if c (λ d. d) (has_git_path_segment f.name) _ _ (Makes-ok (λ d. d) c)
          (Makes->>= c (λ _. c) (λ d. d) _ _ (Makes-lift c (safe_join inner f.name))
            (λ target.
              Makes->> c c (λ d. d) _ _
                (Makes-nothing c sys.answer (wrote (make_dir (dir target) public_dir_perm)) refl)
                (export_at-Makes f target c)))

    export_files-Makes :
        (fs : List GitFile) (end : Result (Unit {0})) (c : Count)
        → Makes c (λ d. d) (export_files sys lib inner fs end c)
    unfolding export_files
    export_files-Makes [] end c = Makes->> c c (λ d. d) _ _ (Makes-lift c end) (Makes-ok (λ d. d) c)
    export_files-Makes (f ∷ fs) end c =
        Makes->>= c (λ d. d) (λ d. d) _ _ (export_file-Makes f c) (λ d. export_files-Makes fs end d)

    pub export_tree-Makes :
        (tree : lib.Tree) → Makes no_count (λ d. d) (export_tree sys lib inner tree)
    unfolding export_tree
    export_tree-Makes tree = export_files-Makes (lib.files tree).0 (lib.files tree).1 no_count

    clone_and_export-Makes :
        (url hash : Text) (auth : Option (Text × Text)) (depth : ℤ)
        → Makes no_count (λ d. d) (clone_and_export sys lib url hash inner auth depth)
    unfolding clone_and_export
    clone_and_export-Makes url hash auth depth =
        let z = no_count in
        Makes->>= z (λ _. z) (λ d. d) _ _
          (Makes-wrap z (λ _. z) "clone failed: %w" _ (Makes-nothing z lib.clone (cloned _) refl))
          (λ repo.
            Makes->>= z (λ _. z) (λ d. d) _ _ (Makes-lift z _)
              (λ commit.
                Makes->>= z (λ _. z) (λ d. d) _ _ (Makes-lift z _)
                  (λ tree. export_tree-Makes tree)))

  module _ (content : Text) (auth : Option (Text × Text)) (depth : ℤ) where
    export_known-Makes :
        (entry : TreeEntry) (url : Option Text) (c : Count)
        → Makes c (λ d. d) (export_known sys lib content auth depth entry url c)
    unfolding export_known export_submodule write
    export_known-Makes entry none c = Makes-ok (λ d. d) c
    export_known-Makes entry (some url) c =
        Makes->>= c (λ _. c) (λ d. d) _ _ (Makes-lift c (safe_join content entry.name))
          (λ sub.
            Makes->> c c (λ d. d) _ _
              (Makes-nothing c sys.answer (wrote (make_dir sub public_dir_perm)) refl)
              (Makes->>= c (add_counts c) (λ d. d) _ _
                (Makes-wrap c (add_counts c) "submodule %s: %w" _
                  (from_none c _ (clone_and_export-Makes sub url entry.hash auth depth)))
                (λ d. Makes-ok (λ d. d) (add_counts c d))))

    export_entries-Makes :
        (modules : Modules) (entries : List TreeEntry) (end : Result (Unit {0})) (c : Count)
        → Makes c (λ d. d) (export_entries sys lib content auth depth modules entries end c)
    unfolding export_entries export_entry
    export_entries-Makes modules [] end c =
        Makes->> c c (λ d. d) _ _ (Makes-lift c end) (Makes-ok (λ d. d) c)
    export_entries-Makes modules (entry ∷ entries) end c =
        Makes->>= c (λ d. d) (λ d. d) _ _
          (Makes-if c (λ d. d) (not (entry.mode == submodule_mode)) _ _ (Makes-ok (λ d. d) c)
            (export_known-Makes entry (url_of modules entry.name) c))
          (λ d. export_entries-Makes modules entries end d)

    parse_file-Makes :
        (f : Option GitFile) (b : Count) → Makes b (λ _. b) (parse_modules_file sys lib f)
    unfolding parse_modules_file parse_contents
    parse_file-Makes none b = Makes-lift b _
    parse_file-Makes (some f) b =
        Makes->>= b (λ _. b) (λ _. b) _ _ (Makes-lift b f.reader)
          (λ text.
            Makes->>= b (λ _. b) (λ _. b) _ _
              (Makes-wrap b (λ _. b) "parse .gitmodules: %w" _ (Makes-lift b _))
              (λ sections. Makes-lift b _))

    pub export_submodules-Makes :
        (tree : lib.Tree)
        → Makes no_count (λ d. d) (export_submodules sys lib content auth depth tree)
    unfolding export_submodules export_modules parse_git_modules
    export_submodules-Makes tree =
        let z = no_count in
        Makes->>= z (λ _. z) (λ d. d) _ _
          (Makes->>= z (λ _. z) (λ _. z) _ _ (Makes-lift z _) (λ f. parse_file-Makes f z))
          (λ modules.
            Makes-if z (λ d. d) (is_nil modules) _ _ (Makes-ok (λ d. d) z)
              (export_entries-Makes modules (lib.entries tree).0 (lib.entries tree).1 z))
