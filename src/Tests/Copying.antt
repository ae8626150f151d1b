-- ===== src/Tests/Copying.antt =====
-- A copy of the tree of the other tests that returns no error.
use gitrepo_csi_driver.Base.{ap, All, [], ◌∷◌, ok}
use gitrepo_csi_driver.Text.{Text, codes}
use gitrepo_csi_driver.Paths.{clean, parse_path}
use gitrepo_csi_driver.Paths.Clean.{IsName, parse_path-IsClean}
use gitrepo_csi_driver.Materializer.Copy.{copy_content_tree}
use gitrepo_csi_driver.Materializer.Copy.Success.{IsNamed, AllNamed}
use gitrepo_csi_driver.Materializer.Copy.Outcome.{IsCopied, copy_content_tree-IsCopied}
use gitrepo_csi_driver.Tests.Content.{tree, src, dst, src_abs, dst_abs, copied_tree}

abbrev all_names : Text
all_names = codes "/.git/HEAD/a.txt/d/link"

names_of_tree :
    All IsName (codes ".git" ∷ codes "HEAD" ∷ codes "a.txt" ∷ codes "d" ∷ codes "link" ∷ [])
unfolding parse_path
names_of_tree = (parse_path-IsClean all_names).names

pub tree-IsNamed : IsNamed tree
unfolding IsNamed AllNamed
tree-IsNamed =
    let (git, (head, (text, (folder, (link, _))))) = names_of_tree in
    (git, (head, tt, tt), (text, tt, (folder, (link, tt, tt), tt)))

copy_content_tree-IsCopied_example :
    IsCopied (clean src) (clean dst) tree (copy_content_tree (λ log. ok tt) src dst (ok tree) []).1
copy_content_tree-IsCopied_example =
    copy_content_tree-IsCopied (λ log. ok tt) src dst tree src_abs dst_abs tree-IsNamed
      (ap (λ r. r.0) copied_tree)
