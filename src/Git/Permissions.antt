-- ===== src/Git/Permissions.antt =====
-- `upgradeLocalPermissions` of pkg/git/client_impl.go: the repository's root and the tree under `.git`
-- are made readable for others, but for what is private to the checkout. A `.git` that is itself a link,
-- which `fs.WalkDir` follows, is not modelled.
pub mod Bits
pub mod Again
pub mod Grown
pub mod Readable
use nebari_infrastructure_co.Prelude.{
  ℕ, ◌%◌, String, ◌<>◌, Bool, not, ◌&&◌, ◌||◌, Option, none, some, List, [], ◌∷◌, ◌==◌, nat_eq,
  if◌then◌else◌, contains, Result, ok, err,
}
use nebari_infrastructure_co.Prelude.State.{M, ◌>>=◌, ◌>>◌}
use nebari_infrastructure_co.Prelude.Text.{trim_prefix, has_prefix, has_part}
use nebari_infrastructure_co.FilePath
use Prim.Native.Nat.{bit_or}

-- `fs.FileMode`, as far as `Chmod` takes it: the low bits, of which nine are the permission, and the
-- three special ones.
pub record FileMode : Type 0 where
  pub bits : ℕ
  pub setuid : Bool
  pub setgid : Bool
  pub sticky : Bool

mutual
  pub data Node : Type 0 where
    symlink : Node
    file : FileMode → Node
    dir : FileMode → Entries → Node

  -- The entries of a directory, in the order of `fs.ReadDir`.
  pub data Entries : Type 0 where
    no_entries : Entries
    entry : String → Node → Entries → Entries

pub data UpgradeError : Type 0 where
  open_failed : String → UpgradeError
  stat_failed chmod_failed read_failed : String → String → UpgradeError

abbrev cut_modules : String → Bool
cut_modules p =
    has_prefix ".git/modules/" p
    && (let rest = trim_prefix ".git/modules/" p in not (rest == "") && not (has_part "/" rest))

-- `isGitDir`.
unfoldable pub is_git_dir : String → Bool
unfolding has_prefix has_part trim_prefix
is_git_dir p = p == ".git" || cut_modules p

abbrev private_dir_names : List String
private_dir_names = "hooks" ∷ "logs" ∷ "worktrees" ∷ []

abbrev private_file_names : List String
private_file_names = "index" ∷ "COMMIT_EDITMSG" ∷ "MERGE_MSG" ∷ "ORIG_HEAD" ∷ "FETCH_HEAD" ∷ []

-- Whether the walk leaves the entry alone: a directory, or anything else.
unfoldable pub is_private_dir : String → String → Bool
unfolding is_git_dir
is_private_dir path name = is_git_dir (FilePath.dir path) && contains private_dir_names name

unfoldable pub is_private_file : String → String → Bool
unfolding is_git_dir
is_private_file path name = is_git_dir (FilePath.dir path) && contains private_file_names name

-- `FileMode.Perm`.
abbrev pub perm : FileMode → ℕ
perm m = m.bits % 512

abbrev pub with_bits : ℕ → FileMode → FileMode
with_bits add m = record m { bits = bit_or (perm m) add }

abbrev pub file_bits : ℕ
file_bits = 0o044

abbrev pub dir_bits : ℕ
dir_bits = 0o055

-- The calls that may fail at a path, and with what.
pub record Faults : Type 0 where
  pub open_root : Option String
  pub stat : String → Option String
  pub chmod : String → Option String
  pub read_dir : String → Option String

abbrev pub in_dir :
    Result UpgradeError (Unit {0}) × FileMode
    → Entries
    → Result UpgradeError (Unit {0}) × Entries
    → Result UpgradeError (Unit {0}) × Node
in_dir (err e, m) before after = (err e, dir m before)
in_dir (ok tt, m) before (r, es) = (r, dir m es)

abbrev pub in_file :
    Result UpgradeError (Unit {0}) × FileMode → Result UpgradeError (Unit {0}) × Node
in_file (r, m) = (r, file m)

abbrev pub then_entries :
    String
    → Result UpgradeError (Unit {0}) × Node
    → Entries
    → Result UpgradeError (Unit {0}) × Entries
    → Result UpgradeError (Unit {0}) × Entries
then_entries name (err e, n) before after = (err e, entry name n before)
then_entries name (ok tt, n) before (r, es) = (r, entry name n es)

abbrev pub listed :
    Result UpgradeError (Unit {0})
    → Entries
    → Result UpgradeError (Unit {0}) × Entries
    → Result UpgradeError (Unit {0}) × Entries
listed (err e) before after = (err e, before)
listed (ok tt) before after = after

abbrev pub finish :
    Result UpgradeError (Unit {0}) × FileMode
    → Node
    → Result UpgradeError (Unit {0}) × Node
    → Result UpgradeError (Unit {0}) × (FileMode × Node)
finish (err e, m) before after = (err e, (m, before))
finish (ok tt, m) before (r, n) = (r, (m, n))

abbrev pub when_opened :
    Option String
    → FileMode × Node
    → Result UpgradeError (Unit {0}) × (FileMode × Node)
    → Result UpgradeError (Unit {0}) × (FileMode × Node)
when_opened (some e) before after = (err (open_failed e), before)
when_opened none before after = after

module _ (faults : Faults) where
  -- `upgrade`, on the mode of the file or directory at a path.
  unfoldable pub upgrade : String → ℕ → M FileMode UpgradeError (Unit {0})
  upgrade path add m = elim (faults.stat path) [
    | some e ↦ (err (stat_failed path e), m)
    | none ↦
        if nat_eq (bit_or (perm m) add) (perm m) then (ok tt, m) else elim (faults.chmod path) [
          | some e ↦ (err (chmod_failed path e), m)
          | none ↦ (ok tt, with_bits add m)
        ]
  ]

  abbrev pub list_dir : String → Result UpgradeError (Unit {0})
  list_dir path = elim (faults.read_dir path) [ some e ↦ err (read_failed path e) | none ↦ ok tt ]

  -- The walk of `fs.WalkDir` at an entry, and at the entries of the directory at a path.
  unfoldable mutual
    pub walk : String → String → Node → Result UpgradeError (Unit {0}) × Node
    walk path name symlink = (ok tt, symlink)
    walk path name (file m) =
        if is_private_file path name then (ok tt, file m) else in_file (upgrade path file_bits m)
    walk path name (dir m es) =
        let inside = walk_entries path es in
        if is_private_dir path name
        then (ok tt, dir m es)
        else in_dir (upgrade path dir_bits m) es (listed (list_dir path) es inside)

    pub walk_entries : String → Entries → Result UpgradeError (Unit {0}) × Entries
    walk_entries path no_entries = (ok tt, no_entries)
    walk_entries path (entry name n es) =
        then_entries name (walk (path <> ("/" <> name)) name n) es (walk_entries path es)

  -- `upgradeLocalPermissions`: the modes of the root, and the tree at `.git`.
  unfoldable pub upgrade_local_permissions : M (FileMode × Node) UpgradeError (Unit {0})
  unfolding walk
  upgrade_local_permissions (root, git) =
      when_opened faults.open_root (root, git)
        (finish (upgrade "." dir_bits root) git (walk ".git" ".git" git))
