-- ===== src/Limitfs.antt =====
-- test_suite/limitfs.c: the state of the file system, the reserved names, and the system calls that
-- its handlers make. The host's file system is code outside of the repository, a record of
-- functions on a state of its own.
pub mod Scan
pub mod Handlers
pub mod Options
pub mod Steps
pub mod Flat
pub mod Quota
pub mod Nested
mod Tests
use linux_device_driver.Base.{ℕ, Bool, ◌||◌, Option, List, ◌∷◌, ◌++◌, ◌⊎◌, ℤ, pos, ◌-ℤ◌}
use linux_device_driver.Base.Text.{Text, codes, text_eq}

-- The static variables.
pub record Fs : Type 0 where
  pub src : Text
  pub max_size : ℕ
  pub cur_size : ℕ

abbrev pub path_max_size : Text
path_max_size = codes "/max_size"

abbrev pub path_cur_size : Text
path_cur_size = codes "/cur_size"

abbrev pub is_reserved : Text → Bool
is_reserved path = text_eq path path_cur_size || text_eq path path_max_size

-- "%s/%s"
abbrev pub join : Text → Text → Text
join dir name = dir ++ (b'/' ∷ name)

-- The calls that can change the host.
pub data Syscall : Type 0 where
  access : Text → ℕ → Syscall
  open_file : Text → ℕ → Syscall
  create_excl : Text → ℕ → Syscall
  mkfifo : Text → ℕ → Syscall
  mknod : Text → ℕ → ℕ → Syscall
  mkdir : Text → ℕ → Syscall
  truncate : Text → ℤ → Syscall
  chmod : Text → ℕ → Syscall
  lchown : Text → ℕ → ℕ → Syscall
  rmdir : Text → Syscall
  unlink : Text → Syscall
  rename : Text → Text → Syscall
  pwrite : ℕ → List ℕ → ℕ → Syscall
  close : ℕ → Syscall

-- What a call returns, the errno it leaves, and the host afterwards.
pub record Reply (W : Type 0) : Type 0 where
  pub ret : ℤ
  pub errno : ℕ
  pub world : W

-- st_mode, st_nlink and st_size
pub record Stat : Type 0 where
  pub mode : ℕ
  pub nlink : ℕ
  pub size : ℕ

pub record Dirent : Type 0 where
  pub name : Text
  pub ino : ℕ
  pub kind : ℕ

pub record Posix (W : Type 0) : Type 0 where
  pub call : Syscall → W → Reply W
  -- stat: whether the file is a directory, and its size
  pub stat : Text → W → Option (Bool × ℕ)
  -- lstat, opendir with readdir to the end, and pread: an errno, or the result
  pub lstat : Text → W → ℕ ⊎ Stat
  pub opendir : Text → W → ℕ ⊎ List Dirent
  pub pread : ℕ → ℕ → ℕ → W → ℕ ⊎ List ℕ

-- `-errno`
abbrev pub minus : ℕ → ℤ
minus n = pos 0 -ℤ pos n
