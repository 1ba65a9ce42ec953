-- ===== src/Limitfs/Flat.antt =====
-- test_suite/limitfs.c on a directory without subdirectories: cur_size is the sum of the sizes.
use linux_device_driver.Base.{
  ℕ, zero, suc, ◌+◌, ◌^◌, ◌≤◌, ◌<◌, ◌≡◌, refl, ap, ◌∙◌, sym, Bool, true, false, Option, none, some,
  List, [], ◌∷◌, if◌then◌else◌, ltb, arith, u64, add_u64, inl, inr, Bool-cases, ℤ, negsuc, eqb_ℤ,
  wrap_s32,
}
use mathlib.Core.Path.{subst}
use linux_device_driver.Base.Text.{Text, text_eq}
use linux_device_driver.Limitfs.{Fs, Posix, Syscall, Reply, Dirent, is_reserved, join}
use linux_device_driver.Limitfs.Scan.{is_dots, scan_entries, add_dir_size, get_dir_size}
use linux_device_driver.Limitfs.Steps.{
  file_size-some, is_dir-some, write_reserved, write_denied, write_done, rescanned_done,
}
use linux_device_driver.Limitfs.Handlers.{
  put_bytes, resized, limitfs_write, rescanned, limitfs_truncate, limitfs_rmdir, limitfs_unlink,
}

-- The files of a directory, each with its size.
abbrev pub Table : Type 0
Table = List (Dirent × ℕ)

abbrev pub total : Table → ℕ
total [] = 0
total ((_, n) ∷ t) = n + total t

abbrev pub lookup : Text → Table → Option ℕ
lookup k [] = none
lookup k ((d, n) ∷ t) = if text_eq d.name k then some n else lookup k t

abbrev pub resize : Text → ℕ → Table → Table
resize k m [] = []
resize k m ((d, n) ∷ t) = if text_eq d.name k then (d, m) ∷ t else (d, n) ∷ resize k m t

-- Every entry is a file of the size that stat tells.
abbrev pub Sized : {W : Type 0} → Posix W → Text → W → Table → Type 0
Sized host src w [] = Unit
Sized host src w ((d, n) ∷ t) =
    (is_dots d.name ≡ false)
    × (host.stat (join src d.name) w ≡ some (false, n))
    × Sized host src w t

-- What readdir gives for the files of a table: each of them, in order, and "." and ".." anywhere.
pub data Lists : List Dirent → Table → Type 0 where
  at_end : Lists [] []
  dots :
      {d : Dirent} {es : List Dirent} {t : Table}
      → is_dots d.name ≡ true
      → Lists es t
      → Lists (d ∷ es) t
  file :
      {d : Dirent} {n : ℕ} {es : List Dirent} {t : Table} → Lists es t → Lists (d ∷ es) ((d, n) ∷ t)

-- A host whose directory `src` has files only. `view` is what it contains, `resolve` the name that a
-- path leads to, and `target` the name of the file that is open on a descriptor.
pub record IsFlat {W : Type 0} (host : Posix W) (src : Text) (view : W → Table)
    (resolve : Text → Text) (target : ℕ → Text) : Type 0 where
  pub listed : (w : W) → (es : List Dirent) × (host.opendir src w ≡ inr es) × Lists es (view w)
  pub sized : (w : W) → Sized host src w (view w)
  pub found :
      (path : Text) (n : ℕ) (w : W)
      → lookup (resolve path) (view w) ≡ some n
      → host.stat path w ≡ some (false, n)
  -- pwrite changes the size of the file that it writes to, and of no other.
  pub stored :
      (fd : ℕ) (xs : List ℕ) (offset : ℕ) (w : W)
      → (m : ℕ) × (view (host.call (Syscall.pwrite fd xs offset) w).world
          ≡ resize (target fd) m (view w))
  pub closed : (fd : ℕ) (w : W) → view (host.call (Syscall.close fd) w).world ≡ view w

pub lookup-resize :
    (k : Text) (m n : ℕ) (t : Table) → lookup k t ≡ some n → lookup k (resize k m t) ≡ some m
lookup-resize k m n [] h = cc
lookup-resize k m n (e ∷ t) h = ground (arith, lookup-resize k m n t)

pub resize_same : (k : Text) (n : ℕ) (t : Table) → lookup k t ≡ some n → resize k n t ≡ t
resize_same k n [] h = cc
resize_same k n (e ∷ t) h = ground (arith, resize_same k n t)

-- A file that is there stays there.
pub lookup-resize-some :
    (j k : Text) (m n : ℕ) (t : Table)
    → lookup k t ≡ some n
    → (n' : ℕ) × (lookup k (resize j m t) ≡ some n')
lookup-resize-some j k m n [] h = absurd (cc)
lookup-resize-some j k m n ((d, s) ∷ t) h = elim (Bool-cases (text_eq d.name j)) [
  | inl same ↦ elim (Bool-cases (text_eq d.name k)) [
    | inl it ↦ (m, rw (same, if◌then◌else◌, it) refl)
    | inr other ↦ (n, rw (same, if◌then◌else◌, other) (ground arith))
  ]
  | inr apart ↦ elim (Bool-cases (text_eq d.name k)) [
    | inl it ↦ (s, rw (apart, if◌then◌else◌, it) refl)
    | inr other ↦
        let (n', e) = lookup-resize-some j k m n t (ground arith) in
        (n', rw (apart, if◌then◌else◌, other) e)
  ]
]

pub total-resize :
    (k : Text) (m n : ℕ) (t : Table) → lookup k t ≡ some n → total (resize k m t) + n ≡ total t + m
total-resize k m n [] h = cc
total-resize k m n (e ∷ t) h = ground (arith, total-resize k m n t)

scan_file :
    {W : Type 0} (host : Posix W) (below : Text → ℕ → Option (Bool × ℕ)) (src : Text) (w : W)
    (d : Dirent) (n : ℕ) (es : List Dirent) (cur sum : ℕ)
    → is_dots d.name ≡ false
    → host.stat (join src d.name) w ≡ some (false, n)
    → scan_entries host below src w (d ∷ es) cur sum
      ≡ scan_entries host below src w es n (add_u64 sum n)
unfolding scan_entries
scan_file host below src w d n es cur sum h s =
    rw
      (
        scan_entries,
        h,
        if◌then◌else◌,
        is_dir-some host (join src d.name) w s,
        file_size-some host (join src d.name) w s,
      )
      refl

scan_dots :
    {W : Type 0} (host : Posix W) (below : Text → ℕ → Option (Bool × ℕ)) (src : Text) (w : W)
    (d : Dirent) (es : List Dirent) (cur sum : ℕ)
    → is_dots d.name ≡ true
    → scan_entries host below src w (d ∷ es) cur sum ≡ scan_entries host below src w es cur sum
unfolding scan_entries
scan_dots host below src w d es cur sum h = rw (scan_entries, h, if◌then◌else◌) refl

scan_files :
    {W : Type 0} (host : Posix W) (below : Text → ℕ → Option (Bool × ℕ)) (src : Text) (w : W)
    {es : List Dirent} {t : Table} (cur sum : ℕ)
    → Lists es t
    → Sized host src w t
    → scan_entries host below src w es cur (u64 sum) ≡ some (true, u64 (sum + total t))
scan_files host below src w cur sum at_end h =
    let e : sum + 0 ≡ sum = omega arith in rw e (unfold scan_entries in refl)
scan_files host below src w cur sum (dots {d} {es} k l) h =
    scan_dots host below src w d es cur (u64 sum) k ∙ scan_files host below src w cur sum l h
scan_files host below src w cur sum (file {d} {n} {es} {t} l) h =
    let e : add_u64 (u64 sum) n ≡ u64 (sum + n) = omega arith in
    let f : sum + n + total t ≡ sum + (n + total t) = omega arith in
    scan_file host below src w d n es cur (u64 sum) h.0 h.1
    ∙ ap (scan_entries host below src w es n) e
    ∙ scan_files host below src w n (sum + n) l h.2
    ∙ ap (λ k. some (true, u64 k)) f

module _ {W : Type 0} {host : Posix W} {src : Text} {view : W → Table} {resolve : Text → Text}
    {target : ℕ → Text} (flat : IsFlat host src view resolve target) where
  pub flat_size :
      (fuel : ℕ) (w : W)
      → 0 < fuel
      → get_dir_size host fuel w src ≡ some (true, u64 (total (view w)))
  unfolding get_dir_size add_dir_size
  flat_size zero w h = absurd (omega arith)
  flat_size (suc fuel) w h =
      let (es, shown, lists) = flat.listed w in
      rw (get_dir_size, add_dir_size, shown)
        (scan_files host (add_dir_size host fuel w) src w 0 0 lists (flat.sized w)
          ∙ ap (λ k. some (true, u64 k)) (omega arith))

  -- After a failed pwrite the file is the same or not, and the descriptor is closed.
  pub put_view :
      (fh : ℕ) (buf : List ℕ) (offset : ℕ) (w : W)
      → (m : ℕ) × (view (put_bytes host fh buf offset w).1 ≡ resize (target fh) m (view w))
  unfolding put_bytes
  put_view fh buf offset w =
      let r : Reply W = host.call (Syscall.pwrite fh buf offset) w in
      let (m, e) = flat.stored fh buf offset w in
      elim (Bool-cases (eqb_ℤ (wrap_s32 r.ret) (negsuc 0))) [
        | inl failed ↦ (m, rw (failed, if◌then◌else◌) (flat.closed fh r.world ∙ e))
        | inr went ↦ (m, rw (went, if◌then◌else◌) e)
      ]

-- What a handler leaves behind: cur_size is the sum of the sizes.
abbrev pub Accounted : {W : Type 0} → (W → Table) → ℤ × Fs × W → Type 0
Accounted view (_, fs, w) = fs.cur_size ≡ u64 (total (view w))

-- The same of a handler whose scan comes to an end; `none` is fuel that ran out.
abbrev pub AccountedScan : {W : Type 0} → (W → Table) → Option (ℤ × Fs × W) → Type 0
AccountedScan view none = ⊥
AccountedScan view (some r) = Accounted view r

pub resized_lem :
    (s s' n m : ℕ) → s < 2 ^ 64 → n ≤ s → s' + n ≡ s + m → resized (u64 s) n m ≡ u64 s'
unfolding resized
resized_lem s s' n m small le e = ground arith

pub lookup-le : (k : Text) (n : ℕ) (t : Table) → lookup k t ≡ some n → n ≤ total t
lookup-le k n [] h = cc
lookup-le k n (e ∷ t) h = ground (arith, lookup-le k n t)

module _ {W : Type 0} {host : Posix W} (fs : Fs) {view : W → Table} {resolve : Text → Text}
    {target : ℕ → Text} (flat : IsFlat host fs.src view resolve target) where
  write_plain :
      (path : Text) (buf : List ℕ) (offset fh n : ℕ) (w : W)
      → is_reserved path ≡ false
      → ltb fs.max_size fs.cur_size ≡ false
      → resolve (join fs.src path) ≡ target fh
      → lookup (target fh) (view w) ≡ some n
      → total (view w) < 2 ^ 64
      → fs.cur_size ≡ u64 (total (view w))
      → Accounted view (limitfs_write host fs path buf offset fh w)
  write_plain path buf offset fh n w plain open_ same here small acc =
      let w' : W = (put_bytes host fh buf offset w).1 in
      let (m, e) = put_view flat fh buf offset w in
      let before : host.stat (join fs.src path) w ≡ some (false, n) =
        flat.found (join fs.src path) n w (rw same here) in
      let there : lookup (target fh) (view w') ≡ some m =
        rw e (lookup-resize (target fh) m n (view w) here) in
      let after : host.stat (join fs.src path) w' ≡ some (false, m) =
        flat.found (join fs.src path) m w' (rw same there) in
      let sum : total (view w') + n ≡ total (view w) + m =
        rw e (total-resize (target fh) m n (view w) here) in
      subst (Accounted view)
        (sym (
          write_done host fs path buf offset fh w plain n m open_
            (file_size-some host (join fs.src path) w before)
            (file_size-some host (join fs.src path) w' after)))
        (ap (λ c. resized c n m) acc
          ∙ resized_lem (total (view w)) (total (view w')) n m small
              (lookup-le (target fh) n (view w) here) sum)

  write_sums :
      (path : Text) (buf : List ℕ) (offset fh n : ℕ) (w : W)
      → resolve (join fs.src path) ≡ target fh
      → lookup (target fh) (view w) ≡ some n
      → total (view w) < 2 ^ 64
      → fs.cur_size ≡ u64 (total (view w))
      → Accounted view (limitfs_write host fs path buf offset fh w)
  write_sums path buf offset fh n w same here small acc = elim (Bool-cases (is_reserved path)) [
    | inl own ↦ subst (Accounted view) (sym (write_reserved host fs path buf offset fh w own)) acc
    | inr plain ↦ elim (Bool-cases (ltb fs.max_size fs.cur_size)) [
      | inl over ↦
          subst (Accounted view) (sym (write_denied host fs path buf offset fh w plain over))
            (rw (flat.closed fh w) acc)
      | inr room ↦ write_plain path buf offset fh n w plain room same here small acc
    ]
  ]

  rescan_sums :
      (fuel : ℕ) (reserved : Bool) (c : Syscall) (w : W)
      → 0 < fuel
      → fs.cur_size ≡ u64 (total (view w))
      → AccountedScan view (rescanned host fuel fs reserved c w)
  unfolding rescanned
  rescan_sums fuel true c w enough acc = acc
  rescan_sums fuel false c w enough acc =
      let w' : W = (host.call c w).world in
      subst (AccountedScan view)
        (sym (
          rescanned_done host fs c w fuel (u64 (total (view w'))) true
            (flat_size flat fuel w' enough)))
        refl

  -- In a directory without subdirectories (but for "." and "..", which readdir may give) whose sizes
  -- add up to less than 2 ^ 64, cur_size stays the sum of the sizes modulo 2 ^ 64: under a write
  -- through a descriptor that is open on an existing file of the directory, whatever it returns, and
  -- under truncate, rmdir and unlink, each of which comes to an end, with fuel for one directory.
  pub account_kept :
      (fuel fh n : ℕ) (w : W) (path : Text) (buf : List ℕ) (offset : ℕ) (other : Text) (size : ℤ)
      → 0 < fuel
      → resolve (join fs.src path) ≡ target fh
      → lookup (target fh) (view w) ≡ some n
      → total (view w) < 2 ^ 64
      → fs.cur_size ≡ u64 (total (view w))
      → Accounted view (limitfs_write host fs path buf offset fh w)
        × AccountedScan view (limitfs_truncate host fuel fs other size w)
        × AccountedScan view (limitfs_rmdir host fuel fs other w)
        × AccountedScan view (limitfs_unlink host fuel fs other w)
  unfolding limitfs_truncate limitfs_rmdir limitfs_unlink
  account_kept fuel fh n w path buf offset other size enough same here small acc = (
    write_sums path buf offset fh n w same here small acc,
    rescan_sums fuel (is_reserved other) (Syscall.truncate (join fs.src other) size) w enough acc,
    rescan_sums fuel (is_reserved other) (Syscall.rmdir (join fs.src other)) w enough acc,
    rescan_sums fuel (is_reserved other) (Syscall.unlink (join fs.src other)) w enough acc,
  )
