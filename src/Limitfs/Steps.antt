-- ===== src/Limitfs/Steps.antt =====
-- test_suite/limitfs.c: the branches of the handlers, one equation for each.
use linux_device_driver.Base.{
  ℕ, ◌≡◌, refl, Bool, true, false, none, some, List, if◌then◌else◌, ltb, pos, negsuc,
}
use linux_device_driver.Base.Maybe.{◌>>=◌}
use linux_device_driver.Base.Text.{Text}
use linux_device_driver.Limitfs.{Fs, Posix, Syscall, is_reserved, join}
use linux_device_driver.Limitfs.Scan.{is_dir, get_file_size, get_dir_size}
use linux_device_driver.Limitfs.Handlers.{
  status, enobufs, put_bytes, resized, limitfs_write, rescanned,
}

module _ {W : Type 0} (host : Posix W) (path : Text) (w : W) {dir : Bool} {n : ℕ}
    (s : host.stat path w ≡ some (dir, n)) where
  pub file_size-some : get_file_size host path w ≡ some n
  unfolding get_file_size
  file_size-some = rw (get_file_size, s) refl

  pub is_dir-some : is_dir host path w ≡ some dir
  unfolding is_dir
  is_dir-some = rw (is_dir, s) refl

module _ {W : Type 0} (host : Posix W) (fs : Fs) (path : Text) (buf : List ℕ) (offset fh : ℕ)
    (w : W) where
  pub write_reserved :
      is_reserved path ≡ true → limitfs_write host fs path buf offset fh w ≡ (pos 0, fs, w)
  unfolding limitfs_write
  write_reserved h = rw (h, if◌then◌else◌) refl

  module _ (plain : is_reserved path ≡ false) where
    pub write_denied :
        ltb fs.max_size fs.cur_size ≡ true
        → limitfs_write host fs path buf offset fh w
          ≡ (enobufs, fs, (host.call (Syscall.close fh) w).world)
    unfolding limitfs_write
    write_denied h = rw (plain, h, if◌then◌else◌) refl

    pub write_unknown :
        ltb fs.max_size fs.cur_size ≡ false
        → get_file_size host (join fs.src path) w ≡ none
        → limitfs_write host fs path buf offset fh w ≡ (negsuc 0, fs, w)
    unfolding limitfs_write
    write_unknown h s = rw (plain, h, if◌then◌else◌, s) refl

    pub write_lost :
        (n : ℕ)
        → ltb fs.max_size fs.cur_size ≡ false
        → get_file_size host (join fs.src path) w ≡ some n
        → get_file_size host (join fs.src path) (put_bytes host fh buf offset w).1 ≡ none
        → limitfs_write host fs path buf offset fh w
          ≡ (negsuc 0, fs, (put_bytes host fh buf offset w).1)
    unfolding limitfs_write
    write_lost n h s t = rw (limitfs_write, plain, h, if◌then◌else◌, s, t) refl

    pub write_done :
        (n m : ℕ)
        → ltb fs.max_size fs.cur_size ≡ false
        → get_file_size host (join fs.src path) w ≡ some n
        → get_file_size host (join fs.src path) (put_bytes host fh buf offset w).1 ≡ some m
        → limitfs_write host fs path buf offset fh w ≡ (
          (put_bytes host fh buf offset w).0,
          record fs { cur_size = resized fs.cur_size n m },
          (put_bytes host fh buf offset w).1,
        )
    unfolding limitfs_write
    write_done n m h s t = rw (limitfs_write, plain, h, if◌then◌else◌, s, t) refl

module _ {W : Type 0} (host : Posix W) (fs : Fs) (c : Syscall) (w : W) (fuel : ℕ) where
  pub rescanned_done :
      (n : ℕ) (ok : Bool)
      → get_dir_size host fuel (host.call c w).world fs.src ≡ some (ok, n)
      → rescanned host fuel fs false c w
        ≡ some (status (host.call c w), record fs { cur_size = n }, (host.call c w).world)
  unfolding rescanned
  rescanned_done n ok h = rw (h, ◌>>=◌) refl
