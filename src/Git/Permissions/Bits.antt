-- ===== src/Git/Permissions/Bits.antt =====
-- What it does to the permission bits to add reading, or reading and traversing, for group and others:
-- the 512 permissions are checked one by one.
use nebari_infrastructure_co.Prelude.{
  ℕ, zero, suc, ◌/◌, ◌%◌, ◌≤◌, ◌<◌, ◌≡◌, refl, Bool, true, not, ◌&&◌, ◌||◌, arith, ltb, leb, nat_eq,
}
use Prim.Native.Nat.{bit_or}
use nebari_infrastructure_co.Git.Permissions.{FileMode, perm, with_bits, file_bits, dir_bits}

holds_for_all : ℕ → (ℕ → Bool) → Bool
holds_for_all zero test = true
holds_for_all (suc n) test = test n && holds_for_all n test

at : (n x : ℕ) (test : ℕ → Bool) → holds_for_all n test ≡ true → x < n → test x ≡ true
unfolding holds_for_all
at (suc n) x test h below = ground (arith, at n x test)
at zero x test h below = absurd (omega arith)

abbrev pub owner : FileMode → ℕ
owner m = perm m / 64

abbrev pub group : FileMode → ℕ
group m = perm m / 8 % 8

abbrev pub others : FileMode → ℕ
others m = perm m % 8

-- What is left of the mode when others may also read: the owner's bits, the bits to write and to
-- execute, and the special bits; and no bit is lost.
abbrev pub FileGrown : FileMode → FileMode → Type 0
FileGrown m k =
    (owner k ≡ owner m)
    × (group k % 4 ≡ group m % 4)
    × (others k % 4 ≡ others m % 4)
    × (group m / 4 ≤ group k / 4)
    × (others m / 4 ≤ others k / 4)
    × (k.setuid ≡ m.setuid)
    × (k.setgid ≡ m.setgid)
    × (k.sticky ≡ m.sticky)

-- The same when others may also read and traverse.
abbrev pub DirGrown : FileMode → FileMode → Type 0
DirGrown m k =
    (owner k ≡ owner m)
    × (group k / 2 % 2 ≡ group m / 2 % 2)
    × (others k / 2 % 2 ≡ others m / 2 % 2)
    × (group m / 4 ≤ group k / 4)
    × (others m / 4 ≤ others k / 4)
    × (group m % 2 ≤ group k % 2)
    × (others m % 2 ≤ others k % 2)
    × (k.setuid ≡ m.setuid)
    × (k.setgid ≡ m.setgid)
    × (k.sticky ≡ m.sticky)

abbrev pub FileReadable : FileMode → Type 0
FileReadable m = (4 ≤ group m) × (4 ≤ others m)

abbrev pub DirReadable : FileMode → Type 0
DirReadable m = (4 ≤ group m) × (group m % 2 ≡ 1) × (4 ≤ others m) × (others m % 2 ≡ 1)

abbrev file_test : ℕ → Bool
file_test p =
    let q = bit_or p 0o044 in
    ltb q 512
    && nat_eq (q / 64) (p / 64)
    && nat_eq (q / 8 % 8 % 4) (p / 8 % 8 % 4)
    && nat_eq (q % 8 % 4) (p % 8 % 4)
    && leb 4 (q / 8 % 8)
    && leb 4 (q % 8)

abbrev dir_test : ℕ → Bool
dir_test p =
    let q = bit_or p 0o055 in
    ltb q 512
    && nat_eq (q / 64) (p / 64)
    && nat_eq (q / 8 % 8 / 2 % 2) (p / 8 % 8 / 2 % 2)
    && nat_eq (q % 8 / 2 % 2) (p % 8 / 2 % 2)
    && leb 4 (q / 8 % 8)
    && leb 4 (q % 8)
    && nat_eq (q / 8 % 8 % 2) 1
    && nat_eq (q % 8 % 2) 1

file_table : holds_for_all 512 file_test ≡ true
unfolding holds_for_all
file_table = refl

dir_table : holds_for_all 512 dir_test ≡ true
unfolding holds_for_all
dir_table = refl

pub file_bits-added :
    (m : FileMode) → FileGrown m (with_bits file_bits m) × FileReadable (with_bits file_bits m)
file_bits-added m = ground (arith, at 512 (perm m) file_test file_table (omega arith))

dir_bits_kept : (m : FileMode) → owner (with_bits dir_bits m) ≡ owner m
dir_bits_kept m = ground (arith, at 512 (perm m) dir_test dir_table (omega arith))

pub dir_bits-DirReadable : (m : FileMode) → DirReadable (with_bits dir_bits m)
dir_bits-DirReadable m = ground (arith, at 512 (perm m) dir_test dir_table (omega arith))

pub dir_bits-DirGrown : (m : FileMode) → DirGrown m (with_bits dir_bits m)
dir_bits-DirGrown m = ground (
  arith,
  dir_bits_kept m,
  dir_bits-DirReadable m,
  at 512 (perm m) dir_test dir_table (omega arith),
)

-- A mode to which the bits add nothing has them.
pub file_bits_there :
    (m : FileMode) → nat_eq (bit_or (perm m) file_bits) (perm m) ≡ true → FileReadable m
file_bits_there m h = ground (arith, at 512 (perm m) file_test file_table (omega arith))

pub dir_bits_there :
    (m : FileMode) → nat_eq (bit_or (perm m) dir_bits) (perm m) ≡ true → DirReadable m
dir_bits_there m h = ground (arith, at 512 (perm m) dir_test dir_table (omega arith))

abbrev file_needless_test : ℕ → Bool
file_needless_test p = not (leb 4 (p / 8 % 8)) || not (leb 4 (p % 8)) || nat_eq (bit_or p 0o044) p

abbrev dir_needless_test : ℕ → Bool
dir_needless_test p =
    not (leb 4 (p / 8 % 8))
    || not (nat_eq (p / 8 % 8 % 2) 1)
    || not (leb 4 (p % 8))
    || not (nat_eq (p % 8 % 2) 1)
    || nat_eq (bit_or p 0o055) p

file_needless_table : holds_for_all 512 file_needless_test ≡ true
unfolding holds_for_all
file_needless_table = refl

dir_needless_table : holds_for_all 512 dir_needless_test ≡ true
unfolding holds_for_all
dir_needless_table = refl

-- To one that has them, they add nothing.
pub file_bits_needless :
    (m : FileMode) → FileReadable m → nat_eq (bit_or (perm m) file_bits) (perm m) ≡ true
file_bits_needless m h =
    ground (arith, at 512 (perm m) file_needless_test file_needless_table (omega arith))

pub dir_bits_needless :
    (m : FileMode) → DirReadable m → nat_eq (bit_or (perm m) dir_bits) (perm m) ≡ true
dir_bits_needless m h =
    ground (arith, at 512 (perm m) dir_needless_test dir_needless_table (omega arith))
