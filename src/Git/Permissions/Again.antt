-- ===== src/Git/Permissions/Again.antt =====
-- A second run of `upgradeLocalPermissions` of pkg/git/client_impl.go finds nothing to do.
use nebari_infrastructure_co.Prelude.{String, ◌≡◌, refl, none, ok}
use nebari_infrastructure_co.Git.Permissions.{
  FileMode, Node, Entries, Faults, upgrade, walk, walk_entries, file_bits, dir_bits,
  upgrade_local_permissions, list_dir,
}
use nebari_infrastructure_co.Git.Permissions.Bits.{
  FileReadable, DirReadable, file_bits_needless, dir_bits_needless,
}
use nebari_infrastructure_co.Git.Permissions.Readable.{
  IsReadable, at_link, private_file, private_dir, readable_file, readable_dir, AreReadable, no_more,
  and_entry, upgrade_local_permissions-IsReadable,
}

module _ (faults : Faults) (stats : (p : String) → faults.stat p ≡ none) where
  upgrade_file_again :
      (path : String) (m : FileMode) → FileReadable m → upgrade faults path file_bits m ≡ (ok tt, m)
  unfolding upgrade
  upgrade_file_again path m h = rw (stats path, upgrade, file_bits_needless m h) refl

  upgrade_dir_again :
      (path : String) (m : FileMode) → DirReadable m → upgrade faults path dir_bits m ≡ (ok tt, m)
  unfolding upgrade
  upgrade_dir_again path m h = rw (stats path, upgrade, dir_bits_needless m h) refl

  module _ (lists : (p : String) → faults.read_dir p ≡ none) where
    mutual
      unfolding walk

      walk_again :
          {path name : String} {n : Node}
          → IsReadable path name n
          → walk faults path name n ≡ (ok tt, n)
      walk_again at_link = refl
      walk_again (private_file h) = rw (h) refl
      walk_again (private_dir h) = rw (h) refl
      walk_again (readable_file {path} {m} public h) = rw (public, upgrade_file_again path m h) refl
      walk_again (readable_dir {path} {m} public h inside) =
          rw (public, upgrade_dir_again path m h, lists path, list_dir, walk_entries_again inside)
            refl

      walk_entries_again :
          {path : String} {es : Entries}
          → AreReadable path es
          → walk_entries faults path es ≡ (ok tt, es)
      walk_entries_again no_more = refl
      walk_entries_again (and_entry h rest) = rw (walk_again h, walk_entries_again rest) refl

    settled :
        faults.open_root ≡ none
        → (root : FileMode) (git : Node) → DirReadable root
        → IsReadable ".git" ".git" git
        → upgrade_local_permissions faults (root, git) ≡ (ok tt, (root, git))
    unfolding upgrade_local_permissions
    settled opened root git h inside =
        rw (upgrade_dir_again "." root h, walk_again inside, opened) refl

-- After a run without an error, a second run that opens the root and in which every stat and every
-- listing succeeds returns no error and changes nothing, whatever becomes of `Chmod`: it is not called.
pub upgrade_local_permissions_again :
    (faults later : Faults) (root : FileMode) (git : Node)
    → (upgrade_local_permissions faults (root, git)).0 ≡ ok tt
    → later.open_root ≡ none
    → ((p : String) → later.stat p ≡ none)
    → ((p : String) → later.read_dir p ≡ none)
    → upgrade_local_permissions later (upgrade_local_permissions faults (root, git)).1
      ≡ (ok tt, (upgrade_local_permissions faults (root, git)).1)
upgrade_local_permissions_again faults later root git h opened stats lists =
    let (readable, inside) = upgrade_local_permissions-IsReadable faults root git h in
    let (after, tree) = (upgrade_local_permissions faults (root, git)).1 in
    settled later stats lists opened after tree readable inside
