-- ===== src/Git/Permissions/Readable.antt =====
-- What `upgradeLocalPermissions` of pkg/git/client_impl.go leaves when it returns no error, and that a
-- second run finds nothing to do.
use nebari_infrastructure_co.Prelude.{
  String, ◌<>◌, ◌≡◌, refl, inl, inr, true, false, Option, none, some, arith, Bool-cases, Result, ok,
  err,
}
use nebari_infrastructure_co.Git.Permissions.{
  FileMode, Node, symlink, file, dir, Entries, no_entries, entry, Faults, upgrade, walk,
  walk_entries, is_private_dir, is_private_file, file_bits, dir_bits, UpgradeError,
  upgrade_local_permissions, in_dir, in_file, listed, then_entries, list_dir, finish, when_opened,
}
use nebari_infrastructure_co.Git.Permissions.Bits.{
  FileReadable, DirReadable, file_bits-added, dir_bits-DirReadable, file_bits_there, dir_bits_there,
}

-- Others can read the files, and read and traverse the directories, but for what is private.
mutual
  pub data IsReadable : String → String → Node → Type 0 where
    at_link : {path name : String} → IsReadable path name symlink
    private_file :
        {path name : String} {m : FileMode}
        → is_private_file path name ≡ true
        → IsReadable path name (file m)
    private_dir :
        {path name : String} {m : FileMode} {es : Entries}
        → is_private_dir path name ≡ true
        → IsReadable path name (dir m es)
    readable_file :
        {path name : String} {m : FileMode}
        → is_private_file path name ≡ false
        → FileReadable m
        → IsReadable path name (file m)
    readable_dir :
        {path name : String} {m : FileMode} {es : Entries}
        → is_private_dir path name ≡ false
        → DirReadable m
        → AreReadable path es
        → IsReadable path name (dir m es)

  pub data AreReadable : String → Entries → Type 0 where
    no_more : {path : String} → AreReadable path no_entries
    and_entry :
        {path name : String} {n : Node} {es : Entries}
        → IsReadable (path <> ("/" <> name)) name n
        → AreReadable path es
        → AreReadable path (entry name n es)

upgrade-FileReadable :
    (faults : Faults) (path : String) (m : FileMode)
    → (upgrade faults path file_bits m).0 ≡ ok tt
    → FileReadable (upgrade faults path file_bits m).1
unfolding upgrade
upgrade-FileReadable faults path m h = ground (arith, file_bits-added m, file_bits_there m)

upgrade-DirReadable :
    (faults : Faults) (path : String) (m : FileMode)
    → (upgrade faults path dir_bits m).0 ≡ ok tt
    → DirReadable (upgrade faults path dir_bits m).1
unfolding upgrade
upgrade-DirReadable faults path m h = ground (arith, dir_bits-DirReadable m, dir_bits_there m)

in_file-IsReadable :
    (path name : String) (r : Result UpgradeError (Unit {0}) × FileMode)
    → is_private_file path name ≡ false
    → (r.0 ≡ ok tt → FileReadable r.1)
    → (in_file r).0 ≡ ok tt
    → IsReadable path name (in_file r).1
in_file-IsReadable path name (r, k) public readable h = readable_file public (readable h)

in_dir-IsReadable :
    (path name : String) (before : Entries) (u : Result UpgradeError (Unit {0}) × FileMode)
    (r : Result UpgradeError (Unit {0}) × Entries)
    → is_private_dir path name ≡ false
    → (u.0 ≡ ok tt → DirReadable u.1)
    → (r.0 ≡ ok tt → AreReadable path r.1)
    → (in_dir u before r).0 ≡ ok tt
    → IsReadable path name (in_dir u before r).1
in_dir-IsReadable path name before (err e, k) r public readable inside h = absurd (cc)
in_dir-IsReadable path name before (ok tt, k) (r, fs) public readable inside h =
    readable_dir public (readable refl) (inside h)

listed-AreReadable :
    (path : String) (before : Entries) (l : Result UpgradeError (Unit {0}))
    (r : Result UpgradeError (Unit {0}) × Entries)
    → (r.0 ≡ ok tt → AreReadable path r.1)
    → (listed l before r).0 ≡ ok tt
    → AreReadable path (listed l before r).1
listed-AreReadable path before (err e) r inside h = absurd (cc)
listed-AreReadable path before (ok tt) r inside h = inside h

then_entries-AreReadable :
    (path name : String) (before : Entries) (u : Result UpgradeError (Unit {0}) × Node)
    (r : Result UpgradeError (Unit {0}) × Entries)
    → (u.0 ≡ ok tt → IsReadable (path <> ("/" <> name)) name u.1)
    → (r.0 ≡ ok tt → AreReadable path r.1)
    → (then_entries name u before r).0 ≡ ok tt
    → AreReadable path (then_entries name u before r).1
then_entries-AreReadable path name before (err e, k) r readable rest h = absurd (cc)
then_entries-AreReadable path name before (ok tt, k) (r, fs) readable rest h =
    and_entry (readable refl) (rest h)

mutual
  unfolding walk

  walk-IsReadable :
      (faults : Faults) (path name : String) (n : Node)
      → (walk faults path name n).0 ≡ ok tt
      → IsReadable path name (walk faults path name n).1
  walk-IsReadable faults path name symlink h = at_link
  walk-IsReadable faults path name (file m) h = elim (Bool-cases (is_private_file path name)) [
    | inl private ↦ rw (private) (private_file private)
    | inr public ↦ rw (public) (
        in_file-IsReadable path name (upgrade faults path file_bits m) public
          (upgrade-FileReadable faults path m) (rw (public) at h))
  ]
  walk-IsReadable faults path name (dir m es) h = elim (Bool-cases (is_private_dir path name)) [
    | inl private ↦ rw (private) (private_dir private)
    | inr public ↦ rw (public) (
        in_dir-IsReadable path name es (upgrade faults path dir_bits m)
          (listed (list_dir faults path) es (walk_entries faults path es)) public
          (upgrade-DirReadable faults path m)
          (listed-AreReadable path es (list_dir faults path) (walk_entries faults path es)
            (walk_entries-AreReadable faults path es))
          (rw (public) at h))
  ]

  walk_entries-AreReadable :
      (faults : Faults) (path : String) (es : Entries)
      → (walk_entries faults path es).0 ≡ ok tt
      → AreReadable path (walk_entries faults path es).1
  walk_entries-AreReadable faults path no_entries h = no_more
  walk_entries-AreReadable faults path (entry name n es) h =
      then_entries-AreReadable path name es (walk faults (path <> ("/" <> name)) name n)
        (walk_entries faults path es) (walk-IsReadable faults (path <> ("/" <> name)) name n)
        (walk_entries-AreReadable faults path es) h

finish-IsReadable :
    (git : Node) (u : Result UpgradeError (Unit {0}) × FileMode)
    (r : Result UpgradeError (Unit {0}) × Node)
    → (u.0 ≡ ok tt → DirReadable u.1)
    → (r.0 ≡ ok tt → IsReadable ".git" ".git" r.1)
    → (finish u git r).0 ≡ ok tt
    → DirReadable (finish u git r).1.0 × IsReadable ".git" ".git" (finish u git r).1.1
finish-IsReadable git (err e, k) r readable inside h = absurd (cc)
finish-IsReadable git (ok tt, k) (r, n) readable inside h = (readable refl, inside h)

when_opened-IsReadable :
    (before : FileMode × Node) (fault : Option String)
    (after : Result UpgradeError (Unit {0}) × (FileMode × Node))
    → (after.0 ≡ ok tt → DirReadable after.1.0 × IsReadable ".git" ".git" after.1.1)
    → (when_opened fault before after).0 ≡ ok tt
    → DirReadable (when_opened fault before after).1.0
      × IsReadable ".git" ".git" (when_opened fault before after).1.1
when_opened-IsReadable before (some e) after readable h = absurd (cc)
when_opened-IsReadable before none after readable h = readable h

-- When no error is returned, group and others can traverse and list the root and every directory under
-- `.git`, and read every file there, but for those that are private to the checkout.
pub upgrade_local_permissions-IsReadable :
    (faults : Faults) (root : FileMode) (git : Node)
    → (upgrade_local_permissions faults (root, git)).0 ≡ ok tt
    → DirReadable (upgrade_local_permissions faults (root, git)).1.0
      × IsReadable ".git" ".git" (upgrade_local_permissions faults (root, git)).1.1
unfolding upgrade_local_permissions
upgrade_local_permissions-IsReadable faults root git h =
    when_opened-IsReadable (root, git) faults.open_root
      (finish (upgrade faults "." dir_bits root) git (walk faults ".git" ".git" git))
      (finish-IsReadable git (upgrade faults "." dir_bits root) (walk faults ".git" ".git" git)
        (upgrade-DirReadable faults "." root) (walk-IsReadable faults ".git" ".git" git))
      h
