-- ===== src/Witnesses/Permissions.antt =====
-- The theorems on the permissions of a local repository at a small tree.
use nebari_infrastructure_co.Prelude.{ℕ, ◌≡◌, refl, true, false, none, some, ok}
use nebari_infrastructure_co.Git.Permissions.{
  FileMode, Node, symlink, file, dir, no_entries, entry, Faults, upgrade_local_permissions,
}
use nebari_infrastructure_co.Git.Permissions.Bits.{DirGrown, DirReadable}
use nebari_infrastructure_co.Git.Permissions.Grown.{Grown, upgrade_local_permissions-Grown}
use nebari_infrastructure_co.Git.Permissions.Readable.{
  IsReadable, upgrade_local_permissions-IsReadable,
}
use nebari_infrastructure_co.Git.Permissions.Again.{upgrade_local_permissions_again}

abbrev mode : ℕ → FileMode
mode n = record { bits = n; setuid = false; setgid = true; sticky = false }

abbrev tree : Node
tree = dir (mode 0o700) (
    entry "HEAD" (file (mode 0o640)) (
      entry "index" (file (mode 0o600)) (
        entry "hooks" (dir (mode 0o700) no_entries) (
          entry "objects" (dir (mode 0o755) (entry "ab" (file (mode 0o600)) no_entries))
            (entry "link" symlink no_entries)))))

abbrev root : FileMode
root = mode 0o700

abbrev no_faults : Faults
no_faults = record { open_root = none; stat = λ p. none; chmod = λ p. none; read_dir = λ p. none }

abbrev no_chmod : Faults
no_chmod = record {
  open_root = none;
  stat = λ p. none;
  chmod = λ p. some "denied";
  read_dir = λ p. none;
}

upgrade_local_permissions-Grown_example :
    DirGrown root (upgrade_local_permissions no_faults (root, tree)).1.0
    × Grown ".git" ".git" tree (upgrade_local_permissions no_faults (root, tree)).1.1
upgrade_local_permissions-Grown_example = upgrade_local_permissions-Grown no_faults root tree

upgrade_local_permissions-IsReadable_example :
    DirReadable (upgrade_local_permissions no_faults (root, tree)).1.0
    × IsReadable ".git" ".git" (upgrade_local_permissions no_faults (root, tree)).1.1
unfolding upgrade_local_permissions nebari_infrastructure_co.Git.Permissions.upgrade
    nebari_infrastructure_co.Git.Permissions.is_private_dir nebari_infrastructure_co.FilePath.dir
    nebari_infrastructure_co.Git.Permissions.is_private_file
upgrade_local_permissions-IsReadable_example =
    upgrade_local_permissions-IsReadable no_faults root tree refl

upgrade_local_permissions_again_example :
    upgrade_local_permissions no_chmod (upgrade_local_permissions no_faults (root, tree)).1
    ≡ (ok tt, (upgrade_local_permissions no_faults (root, tree)).1)
unfolding upgrade_local_permissions nebari_infrastructure_co.Git.Permissions.upgrade
    nebari_infrastructure_co.Git.Permissions.is_private_dir nebari_infrastructure_co.FilePath.dir
    nebari_infrastructure_co.Git.Permissions.is_private_file
upgrade_local_permissions_again_example =
    upgrade_local_permissions_again no_faults no_chmod root tree refl refl (λ p. refl) (λ p. refl)
