-- ===== src/Limitfs/Nested/Tests.antt =====
-- test_suite/limitfs.c: get_dir_size on a directory with one subdirectory, in both orders.
use linux_device_driver.Base.{
  ℕ, ◌≡◌, refl, Bool, true, false, Option, none, some, if◌then◌else◌, arith, negsuc, inl, inr, [],
  ◌∷◌,
}
use linux_device_driver.Base.Text.{Text, codes, text_eq}
use linux_device_driver.Limitfs.{Posix, Dirent}
use linux_device_driver.Limitfs.Scan.{get_file_size, is_dir, get_dir_size}
use linux_device_driver.Limitfs.Nested.{Entries, nil, file, dir, dots, dirents, exact_size}

abbrev entry : ℕ → Dirent
entry c = record { name = c ∷ []; ino = c; kind = 8 }

-- A host whose directory "s" has the file "a" of 10 bytes, then the directory "d" with "b" of 5 bytes.
abbrev tree_stat : Text → Option (Bool × ℕ)
tree_stat path =
    if text_eq path (codes "s/a")
    then some (false, 10)
    else if text_eq path (codes "s/d")
    then some (true, 4096)
    else if text_eq path (codes "s/d/b")
    then some (false, 5)
    else none

abbrev d_entry : Dirent
d_entry = record { name = codes "d"; ino = 9; kind = 4 }

abbrev dot : Dirent
dot = record { name = codes "."; ino = 1; kind = 4 }

abbrev dot_dot : Dirent
dot_dot = record { name = codes ".."; ino = 2; kind = 4 }

abbrev inside : Entries
inside = dots dot (file (entry b'b') 5 (dots dot_dot nil))

abbrev tree : Bool → Entries
tree true = dots dot (dots dot_dot (dir d_entry inside (file (entry b'a') 10 nil)))
tree false = file (entry b'a') 10 (dir d_entry inside nil)

-- Whether the directory is listed first.
abbrev tree_host : Bool → Posix (Unit {0})
tree_host first = record {
  call = λ c w. record { ret = negsuc 0; errno = 30; world = w };
  lstat = λ path w. inl 2;
  pread = λ fd n offset w. inl 5;
  stat = λ path w. tree_stat path;
  opendir = λ path w.
      if text_eq path (codes "s")
      then inr (dirents (tree first))
      else if text_eq path (codes "s/d")
      then inr (dirents inside)
      else inl 2;
}

exact_size_example : get_dir_size (tree_host true) 2 tt (codes "s") ≡ some (true, 15)
exact_size_example =
    exact_size (tree_host true) tt (tree true) 2 (codes "s") (omega arith) refl
      (
        refl,
        (
          refl,
          (
            refl,
            (4096, refl),
            refl,
            (refl, (refl, refl, omega arith, (refl, tt))),
            (refl, refl, omega arith, tt),
          ),
        ),
      )
      (tt, tt)

counted_runs : get_dir_size (tree_host false) 2 tt (codes "s") ≡ some (true, 25)
unfolding get_dir_size get_file_size is_dir
counted_runs = refl
