-- ===== src/Git/Permissions/Grown.antt =====
-- What `upgradeLocalPermissions` of pkg/git/client_impl.go does to the tree, whatever it returns.
use nebari_infrastructure_co.Prelude.{
  ℕ, String, ◌<>◌, ◌≡◌, sym, subst, ◌⊎◌, inl, inr, false, Option, none, some, arith, Bool-cases,
  Result, ok, err,
}
use nebari_infrastructure_co.Git.Permissions.{
  FileMode, Node, symlink, file, dir, Entries, no_entries, entry, Faults, upgrade, walk,
  walk_entries, is_private_dir, is_private_file, with_bits, file_bits, dir_bits, UpgradeError,
  upgrade_local_permissions, in_dir, in_file, listed, then_entries, list_dir, finish, when_opened,
}
use nebari_infrastructure_co.Git.Permissions.Bits.{
  FileGrown, DirGrown, file_bits-added, dir_bits-DirGrown,
}

-- The walk changes modes only, adds bits only, and leaves what is private alone.
mutual
  pub data Grown : String → String → Node → Node → Type 0 where
    unchanged : {path name : String} {n : Node} → Grown path name n n
    file_grown :
        {path name : String} {m k : FileMode}
        → is_private_file path name ≡ false
        → FileGrown m k
        → Grown path name (file m) (file k)
    dir_grown :
        {path name : String} {m k : FileMode} {es fs : Entries}
        → is_private_dir path name ≡ false
        → DirGrown m k
        → GrownEntries path es fs
        → Grown path name (dir m es) (dir k fs)

  pub data GrownEntries : String → Entries → Entries → Type 0 where
    same : {path : String} {es : Entries} → GrownEntries path es es
    grown :
        {path name : String} {n k : Node} {es fs : Entries}
        → Grown (path <> ("/" <> name)) name n k
        → GrownEntries path es fs
        → GrownEntries path (entry name n es) (entry name k fs)

DirGrown-refl : (m : FileMode) → DirGrown m m
DirGrown-refl m = ground arith

upgrade-mode :
    (faults : Faults) (path : String) (add : ℕ) (m : FileMode)
    → ((upgrade faults path add m).1 ≡ m) ⊎ ((upgrade faults path add m).1 ≡ with_bits add m)
unfolding upgrade
upgrade-mode faults path add m = ground arith

pub upgrade-FileGrown :
    (faults : Faults) (path : String) (m : FileMode)
    → FileGrown m (upgrade faults path file_bits m).1
unfolding upgrade
upgrade-FileGrown faults path m = ground (arith, file_bits-added m)

pub upgrade-DirGrown :
    (faults : Faults) (path : String) (m : FileMode) → DirGrown m (upgrade faults path dir_bits m).1
upgrade-DirGrown faults path m = elim (upgrade-mode faults path dir_bits m) [
  | inl kept ↦ subst (λ k. DirGrown m k) (sym kept) (DirGrown-refl m)
  | inr added ↦ subst (λ k. DirGrown m k) (sym added) (dir_bits-DirGrown m)
]

in_file-Grown :
    (path name : String) (m : FileMode) (r : Result UpgradeError (Unit {0}) × FileMode)
    → is_private_file path name ≡ false
    → FileGrown m r.1
    → Grown path name (file m) (in_file r).1
in_file-Grown path name m (r, k) public g = file_grown public g

in_dir-Grown :
    (path name : String) (m : FileMode) (es : Entries)
    (u : Result UpgradeError (Unit {0}) × FileMode) (r : Result UpgradeError (Unit {0}) × Entries)
    → is_private_dir path name ≡ false
    → DirGrown m u.1
    → GrownEntries path es r.1
    → Grown path name (dir m es) (in_dir u es r).1
in_dir-Grown path name m es (err e, k) r public g inside = dir_grown public g same
in_dir-Grown path name m es (ok tt, k) (r, fs) public g inside = dir_grown public g inside

listed-GrownEntries :
    (path : String) (es : Entries) (l : Result UpgradeError (Unit {0}))
    (r : Result UpgradeError (Unit {0}) × Entries)
    → GrownEntries path es r.1
    → GrownEntries path es (listed l es r).1
listed-GrownEntries path es (err e) r inside = same
listed-GrownEntries path es (ok tt) r inside = inside

then_entries-GrownEntries :
    (path name : String) (n : Node) (es : Entries) (u : Result UpgradeError (Unit {0}) × Node)
    (r : Result UpgradeError (Unit {0}) × Entries)
    → Grown (path <> ("/" <> name)) name n u.1
    → GrownEntries path es r.1
    → GrownEntries path (entry name n es) (then_entries name u es r).1
then_entries-GrownEntries path name n es (err e, k) r g rest = grown g same
then_entries-GrownEntries path name n es (ok tt, k) (r, fs) g rest = grown g rest

mutual
  unfolding walk

  pub walk-Grown :
      (faults : Faults) (path name : String) (n : Node)
      → Grown path name n (walk faults path name n).1
  walk-Grown faults path name symlink = unchanged
  walk-Grown faults path name (file m) = elim (Bool-cases (is_private_file path name)) [
    | inl private ↦ rw (private) unchanged
    | inr public ↦ rw (public) (
        in_file-Grown path name m (upgrade faults path file_bits m) public
          (upgrade-FileGrown faults path m))
  ]
  walk-Grown faults path name (dir m es) = elim (Bool-cases (is_private_dir path name)) [
    | inl private ↦ rw (private) unchanged
    | inr public ↦ rw (public) (
        in_dir-Grown path name m es (upgrade faults path dir_bits m)
          (listed (list_dir faults path) es (walk_entries faults path es)) public
          (upgrade-DirGrown faults path m)
          (listed-GrownEntries path es (list_dir faults path) (walk_entries faults path es)
            (walk_entries-Grown faults path es)))
  ]

  pub walk_entries-Grown :
      (faults : Faults) (path : String) (es : Entries)
      → GrownEntries path es (walk_entries faults path es).1
  walk_entries-Grown faults path no_entries = same
  walk_entries-Grown faults path (entry name n es) =
      then_entries-GrownEntries path name n es (walk faults (path <> ("/" <> name)) name n)
        (walk_entries faults path es) (walk-Grown faults (path <> ("/" <> name)) name n)
        (walk_entries-Grown faults path es)

finish-Grown :
    (root : FileMode) (git : Node) (u : Result UpgradeError (Unit {0}) × FileMode)
    (r : Result UpgradeError (Unit {0}) × Node)
    → DirGrown root u.1
    → Grown ".git" ".git" git r.1
    → DirGrown root (finish u git r).1.0 × Grown ".git" ".git" git (finish u git r).1.1
finish-Grown root git (err e, k) r g inside = (g, unchanged)
finish-Grown root git (ok tt, k) (r, n) g inside = (g, inside)

when_opened-Grown :
    (root : FileMode) (git : Node) (fault : Option String)
    (after : Result UpgradeError (Unit {0}) × (FileMode × Node))
    → DirGrown root after.1.0 × Grown ".git" ".git" git after.1.1
    → DirGrown root (when_opened fault (root, git) after).1.0
      × Grown ".git" ".git" git (when_opened fault (root, git) after).1.1
when_opened-Grown root git (some e) after h = (DirGrown-refl root, unchanged)
when_opened-Grown root git none after h = h

-- Whatever calls fail, and whatever is returned, the root and each file and directory under `.git` keep
-- the bits they have, those of the owner, those to write and the special ones as they are; files get at
-- most the bits to read and directories those to read and traverse, for group and others; symlinks, and
-- what the index, the hooks, the logs and the like are at, stay as they are; and nothing is added,
-- removed or renamed.
pub upgrade_local_permissions-Grown :
    (faults : Faults) (root : FileMode) (git : Node)
    → DirGrown root (upgrade_local_permissions faults (root, git)).1.0
      × Grown ".git" ".git" git (upgrade_local_permissions faults (root, git)).1.1
unfolding upgrade_local_permissions
upgrade_local_permissions-Grown faults root git =
    when_opened-Grown root git faults.open_root
      (finish (upgrade faults "." dir_bits root) git (walk faults ".git" ".git" git))
      (finish-Grown root git (upgrade faults "." dir_bits root) (walk faults ".git" ".git" git)
        (upgrade-DirGrown faults "." root) (walk-Grown faults ".git" ".git" git))
