-- ===== src/Limitfs/Scan.antt =====
-- test_suite/limitfs.c: the size of a directory, as `get_dir_size` adds it up.
use linux_device_driver.Base.{
  ℕ, zero, suc, Bool, true, false, Option, none, some, List, [], ◌∷◌, ◌||◌, if◌then◌else◌, add_u64,
  inl, inr,
}
use linux_device_driver.Base.Maybe.{◌>>=◌}
use linux_device_driver.Base.Text.{Text, codes, text_eq}
use linux_device_driver.Limitfs.{Posix, Dirent, join}

-- "." and ".."
abbrev pub is_dots : Text → Bool
is_dots name = text_eq name (codes ".") || text_eq name (codes "..")

module _ {W : Type 0} (host : Posix W) where
  unfoldable pub get_file_size : Text → W → Option ℕ
  get_file_size path w = elim (host.stat path w) [ none ↦ none | some (_, size) ↦ some size ]

  unfoldable pub is_dir : Text → W → Option Bool
  is_dir path w = elim (host.stat path w) [ none ↦ none | some (dir, _) ↦ some dir ]

  -- The loop over the entries. `below` is the recursive call. `cur` is cur_filesize, which keeps its
  -- value from one entry to the next, and `total` is *filesize. The result: whether 0 is returned,
  -- and *filesize; `none` is fuel that ran out.
  unfoldable pub scan_entries :
      (Text → ℕ → Option (Bool × ℕ)) → Text → W → List Dirent → ℕ → ℕ → Option (Bool × ℕ)
  scan_entries below dir w [] cur total = some (true, total)
  scan_entries below dir w (e ∷ es) cur total =
      let rest : ℕ → ℕ → Option (Bool × ℕ) = scan_entries below dir w es in
      let path : Text = join dir e.name in
      if is_dots e.name then rest cur total else elim (is_dir path w) [
        | none ↦ some (false, total)
        | some true ↦ below path cur >>= λ r.
            if r.0 then rest r.1 (add_u64 total r.1) else some (false, total)
        | some false ↦ elim (get_file_size path w) [
          | none ↦ some (false, total)
          | some size ↦ rest size (add_u64 total size)
        ]
      ]

  -- `__get_dir_size`: adds to what *filesize holds. The fuel bounds the depth of the directories.
  unfoldable pub add_dir_size : ℕ → W → Text → ℕ → Option (Bool × ℕ)
  unfolding scan_entries
  add_dir_size zero w dir filesize = none
  add_dir_size (suc fuel) w dir filesize =
      let below : Text → ℕ → Option (Bool × ℕ) = add_dir_size fuel w in
      elim (host.opendir dir w) [
        | inl errno ↦ some (false, filesize)
        | inr es ↦ scan_entries below dir w es 0 filesize
      ]

  unfoldable pub get_dir_size : ℕ → W → Text → Option (Bool × ℕ)
  unfolding add_dir_size
  get_dir_size fuel w dir = add_dir_size fuel w dir 0
