-- ===== src/Limitfs/Handlers.antt =====
-- test_suite/limitfs.c: the handlers that fuse calls.
use linux_device_driver.Base.{
  ℕ, ◌*◌, Bool, Option, none, some, List, [], ◌∷◌, ◌++◌, if◌then◌else◌, ltb, leb, ◌==◌, length,
  drop, pos_part, ◌||◌, add_u64, sub_u64, ℤ, pos, negsuc, eqb_ℤ, ltb_ℤ, wrap_s32, inl, inr, bit_and,
}
use linux_device_driver.Base.Maybe.{◌>>=◌}
use linux_device_driver.Base.Text.{Text, text_eq, decimal}
use linux_device_driver.Limitfs.{
  Fs, Posix, Syscall, Reply, Stat, Dirent, path_max_size, path_cur_size, is_reserved, join, minus,
}
use linux_device_driver.Limitfs.Scan.{get_file_size, get_dir_size}

abbrev pub enobufs : ℤ
enobufs = negsuc 104

-- `if (res == -1) return -errno; return 0;`
abbrev pub status : {W : Type 0} → Reply W → ℤ
status r = if eqb_ℤ r.ret (negsuc 0) then minus r.errno else pos 0

-- "%lu\n"
abbrev pub size_line : ℕ → Text
size_line n = decimal n ++ 10 ∷ []

-- The sum for a file that was `old_size` bytes long and now is `new_size`.
unfoldable pub resized : ℕ → ℕ → ℕ → ℕ
resized cur old_size new_size =
    if leb old_size cur then add_u64 (sub_u64 cur old_size) new_size else new_size

module _ {W : Type 0} (host : Posix W) where
  -- The handlers that make one call: -1 for a reserved name, else what the call returns.
  unfoldable pub guarded : Bool → Syscall → W → ℤ × W
  guarded reserved c w =
      if reserved then (negsuc 0, w) else (status (host.call c w), (host.call c w).world)

  unfoldable pub limitfs_getattr : Fs → Text → Stat → W → ℤ × Stat
  limitfs_getattr fs path stbuf w =
      if is_reserved path
      then (pos 0, record { mode = 0x8124; nlink = 1; size = 128 })
      else elim (host.lstat (join fs.src path) w) [
        | inl errno ↦ (minus errno, stbuf)
        | inr a ↦ (pos 0, a)
      ]

  unfoldable pub limitfs_access : Fs → Text → ℕ → W → ℤ × W
  limitfs_access fs path mask w =
      if is_reserved path
      then (pos 0, w)
      else let r = host.call (Syscall.access (join fs.src path) mask) w in (status r, r.world)

  -- The loop over readdir: a filler that answers other than 0 ends it.
  unfoldable pub fill_all :
      {B : Type 0} → (Text → Option (ℕ × ℕ) → B → B × Bool) → List Dirent → B → B
  fill_all filler [] buf = buf
  fill_all filler (de ∷ des) buf =
      let (buf', full) = filler de.name (some (de.ino, de.kind * 4096)) buf in
      let rest = fill_all filler des buf' in if full then buf' else rest

  -- `filler` is given a name and, of an entry on the host, st_ino and st_mode.
  unfoldable pub limitfs_readdir :
      {B : Type 0} → (Text → Option (ℕ × ℕ) → B → B × Bool) → Fs → Text → B → W → ℤ × B
  unfolding fill_all
  limitfs_readdir filler fs path buf w =
      let buf' =
        if text_eq path (b'/' ∷ [])
        then (filler (drop 1 path_max_size) none (filler (drop 1 path_cur_size) none buf).0).0
        else buf in
      elim (host.opendir (join fs.src path) w) [
        | inl errno ↦ (minus errno, buf')
        | inr des ↦ (pos 0, fill_all filler des buf')
      ]

  -- S_ISREG and S_ISFIFO; `open` with O_CREAT and O_EXCL is closed again.
  unfoldable pub make_node : Text → ℕ → ℕ → W → Reply W
  make_node real_path mode rdev w =
      let r = host.call (Syscall.create_excl real_path mode) w in
      if bit_and mode 0xf000 == 0x8000
      then (if ltb_ℤ r.ret (pos 0) then r else host.call (Syscall.close (pos_part r.ret)) r.world)
      else if bit_and mode 0xf000 == 0x1000
      then host.call (Syscall.mkfifo real_path mode) w
      else host.call (Syscall.mknod real_path mode rdev) w

  unfoldable pub limitfs_mknod : Fs → Text → ℕ → ℕ → W → ℤ × W
  unfolding make_node
  limitfs_mknod fs path mode rdev w =
      if ltb fs.max_size fs.cur_size
      then (enobufs, w)
      else if is_reserved path
      then (pos 0, w)
      else let r = make_node (join fs.src path) mode rdev w in (status r, r.world)

  -- The result, fi->fh, and the host.
  unfoldable pub limitfs_open : Fs → Text → ℕ → ℕ → W → ℤ × ℕ × W
  limitfs_open fs path flags fh w =
      if is_reserved path
      then (pos 0, fh, w)
      else let r = host.call (Syscall.open_file (join fs.src path) flags) w in
        if eqb_ℤ r.ret (negsuc 0)
        then (minus r.errno, fh, r.world)
        else (pos 0, pos_part r.ret, r.world)

  -- The result, the bytes stored in `buf`, and the host.
  unfoldable pub limitfs_read : Fs → Text → ℕ → ℕ → ℕ → W → ℤ × List ℕ × W
  limitfs_read fs path size offset fh w =
      if text_eq path path_cur_size
      then (pos (length (size_line fs.cur_size)), size_line fs.cur_size, w)
      else if text_eq path path_max_size
      then (pos (length (size_line fs.max_size)), size_line fs.max_size, w)
      else elim (host.pread fh size offset w) [
        | inl errno ↦ (minus errno, [], (host.call (Syscall.close fh) w).world)
        | inr xs ↦ (wrap_s32 (pos (length xs)), xs, w)
      ]

  -- pwrite, and the close where it fails: `res`, and the host.
  unfoldable pub put_bytes : ℕ → List ℕ → ℕ → W → ℤ × W
  put_bytes fh buf offset w =
      let r = host.call (Syscall.pwrite fh buf offset) w in
      let res = wrap_s32 r.ret in
      if eqb_ℤ res (negsuc 0)
      then (minus r.errno, (host.call (Syscall.close fh) r.world).world)
      else (res, r.world)

  unfoldable pub limitfs_write : Fs → Text → List ℕ → ℕ → ℕ → W → ℤ × Fs × W
  unfolding put_bytes resized
  limitfs_write fs path buf offset fh w =
      if is_reserved path
      then (pos 0, fs, w)
      else if ltb fs.max_size fs.cur_size
      then (enobufs, fs, (host.call (Syscall.close fh) w).world)
      else elim (get_file_size host (join fs.src path) w) [
        | none ↦ (negsuc 0, fs, w)
        | some old_size ↦
            let (res, w') = put_bytes fh buf offset w in
            elim (get_file_size host (join fs.src path) w') [
              | none ↦ (negsuc 0, fs, w')
              | some new_size ↦
                  (res, record fs { cur_size = resized fs.cur_size old_size new_size }, w')
            ]
      ]

  -- truncate, rmdir and unlink: the call, then the directory is measured again, also if it failed.
  unfoldable pub rescanned : ℕ → Fs → Bool → Syscall → W → Option (ℤ × Fs × W)
  rescanned fuel fs reserved c w =
      if reserved
      then some (negsuc 0, fs, w)
      else let r = host.call c w in
        get_dir_size host fuel r.world fs.src >>= λ s.
        some (status r, record fs { cur_size = s.1 }, r.world)

  unfoldable pub limitfs_truncate : ℕ → Fs → Text → ℤ → W → Option (ℤ × Fs × W)
  unfolding rescanned
  limitfs_truncate fuel fs path size w =
      rescanned fuel fs (is_reserved path) (Syscall.truncate (join fs.src path) size) w

  unfoldable pub limitfs_rmdir : ℕ → Fs → Text → W → Option (ℤ × Fs × W)
  unfolding rescanned
  limitfs_rmdir fuel fs path w =
      rescanned fuel fs (is_reserved path) (Syscall.rmdir (join fs.src path)) w

  unfoldable pub limitfs_unlink : ℕ → Fs → Text → W → Option (ℤ × Fs × W)
  unfolding rescanned
  limitfs_unlink fuel fs path w =
      rescanned fuel fs (is_reserved path) (Syscall.unlink (join fs.src path)) w

  unfoldable pub limitfs_mkdir : Fs → Text → ℕ → W → ℤ × W
  unfolding guarded
  limitfs_mkdir fs path mode w =
      guarded (is_reserved path) (Syscall.mkdir (join fs.src path) mode) w

  unfoldable pub limitfs_chmod : Fs → Text → ℕ → W → ℤ × W
  unfolding guarded
  limitfs_chmod fs path mode w =
      guarded (is_reserved path) (Syscall.chmod (join fs.src path) mode) w

  unfoldable pub limitfs_chown : Fs → Text → ℕ → ℕ → W → ℤ × W
  unfolding guarded
  limitfs_chown fs path uid gid w =
      guarded (is_reserved path) (Syscall.lchown (join fs.src path) uid gid) w

  unfoldable pub limitfs_rename : Fs → Text → Text → W → ℤ × W
  unfolding guarded
  limitfs_rename fs from to w =
      guarded (is_reserved from || is_reserved to)
        (Syscall.rename (join fs.src from) (join fs.src to)) w

  unfoldable pub limitfs_release : ℕ → W → ℤ × W
  limitfs_release fh w = let r = host.call (Syscall.close fh) w in (status r, r.world)
