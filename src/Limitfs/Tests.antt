-- ===== src/Limitfs/Tests.antt =====
-- test_suite/limitfs.c over a host with two files, "a" and "b" in the directory "s", each there with
-- a size or not, whose pwrite makes a file longer by four bytes at most.
use linux_device_driver.Base.{
  ℕ, ◌+◌, ◌≡◌, ◌≤◌, refl, ap, ◌∙◌, Bool, true, false, Option, none, some, List, [], ◌∷◌, ◌++◌, map,
  if◌then◌else◌, ◌==◌, arith, min, max, length, eqb_ℤ, wrap_s32, pos, negsuc, inl, inr, Bool-cases,
}
use linux_device_driver.Base.Text.{Text, codes, text_eq}
use linux_device_driver.Limitfs.{Fs, Posix, Syscall, Reply, Dirent}
use linux_device_driver.Limitfs.Handlers.{
  put_bytes, limitfs_write, limitfs_truncate, limitfs_rmdir, limitfs_unlink,
}
use linux_device_driver.Limitfs.Quota.{Request, run_writes, GrowsBy, quota_bounded, freed_goes_on}
use linux_device_driver.Limitfs.Scan.{get_file_size}
use linux_device_driver.Limitfs.Flat.{
  Table, total, lookup, resize, lookup-resize, Sized, Lists, at_end, dots, file, IsFlat, Accounted,
  AccountedScan, account_kept,
}

abbrev Two : Type 0
Two = Option ℕ × Option ℕ

abbrev entry : ℕ → Dirent
entry c = record { name = c ∷ []; ino = c; kind = 8 }

abbrev listed_as : ℕ → Option ℕ → Table
listed_as c none = []
listed_as c (some n) = (entry c, n) ∷ []

abbrev view : Two → Table
view (a, b) = listed_as b'a' a ++ listed_as b'b' b

-- The path without the directory and its slashes.
abbrev skip_slashes : Text → Text
skip_slashes [] = []
skip_slashes (c ∷ s) = if c == b'/' then skip_slashes s else c ∷ s

abbrev resolve : Text → Text
resolve [] = []
resolve (c ∷ s) = skip_slashes s

abbrev target : ℕ → Text
target fd = if fd == 3 then codes "a" else codes "b"

abbrev grown : ℕ → Option ℕ → Option ℕ
grown end none = none
grown end (some n) = some (min (max n end) (n + 4))

abbrev call : Syscall → Two → Reply Two
call (Syscall.pwrite fd xs offset) (a, b) = record {
  ret = pos (length xs);
  errno = 0;
  world = if fd == 3 then (grown (offset + length xs) a, b) else (a, grown (offset + length xs) b);
}
call (Syscall.unlink path) (a, b) = record {
  ret = pos 0;
  errno = 0;
  world =
      if text_eq (resolve path) (codes "a")
      then (none, b)
      else if text_eq (resolve path) (codes "b")
      then (a, none)
      else (a, b);
}
call c w = record { ret = pos 0; errno = 0; world = w }

abbrev shown : Option ℕ → Option (Bool × ℕ)
shown none = none
shown (some n) = some (false, n)

-- readdir gives "." and ".." too.
abbrev listing : Two → List Dirent
listing w =
    record { name = codes "."; ino = 1; kind = 4 } ∷ map (λ e. e.0) (view w)
    ++ record { name = codes ".."; ino = 2; kind = 4 } ∷ []

abbrev host : Posix Two
host = record {
  call = call;
  stat = λ path w. shown (lookup (resolve path) (view w));
  lstat = λ path w. inl 2;
  opendir = λ path w. inr (listing w);
  pread = λ fd n offset w. inl 5;
}

sized : (w : Two) → Sized host (codes "s") w (view w)
sized (none, none) = tt
sized (none, some b) = (refl, refl, tt)
sized (some a, none) = (refl, refl, tt)
sized (some a, some b) = (refl, refl, (refl, refl, tt))

lists : (w : Two) → Lists (listing w) (view w)
lists (none, none) = dots refl (dots refl at_end)
lists (none, some b) = dots refl (file (dots refl at_end))
lists (some a, none) = dots refl (file (dots refl at_end))
lists (some a, some b) = dots refl (file (file (dots refl at_end)))

stored :
    (fd : ℕ) (xs : List ℕ) (offset : ℕ) (w : Two)
    → (m : ℕ) × (view (call (Syscall.pwrite fd xs offset) w).world ≡ resize (target fd) m (view w))
stored fd xs offset (a, b) = elim (Bool-cases (fd == 3)) [
  | inl first ↦ rw (first, if◌then◌else◌) (left a b)
  | inr second ↦ rw (second, if◌then◌else◌) (right a b)
]
  where
    end : ℕ
    end = offset + length xs

    left : (a b : Option ℕ) → (m : ℕ) × (view (grown end a, b) ≡ resize (codes "a") m (view (a, b)))
    left none none = (0, refl)
    left none (some b) = (0, refl)
    left (some a) none = (min (max a end) (a + 4), refl)
    left (some a) (some b) = (min (max a end) (a + 4), refl)

    right :
        (a b : Option ℕ) → (m : ℕ) × (view (a, grown end b) ≡ resize (codes "b") m (view (a, b)))
    right none none = (0, refl)
    right none (some b) = (min (max b end) (b + 4), refl)
    right (some a) none = (0, refl)
    right (some a) (some b) = (min (max b end) (b + 4), refl)

flat : IsFlat host (codes "s") view resolve target
flat = record {
  listed = λ w. (listing w, refl, lists w);
  sized = sized;
  found = λ path n w h. ap shown h;
  stored = stored;
  closed = λ fd w. refl;
}

abbrev fs : Fs
fs = record { src = codes "s"; max_size = 10; cur_size = 12 }

account_kept_example :
    Accounted view (
      limitfs_write host
        (record fs { max_size = 20 })
        (codes "/a")
        (1 ∷ 2 ∷ [])
        5
        3
        (some 5, some 7))
    × AccountedScan view (
        limitfs_truncate host 1 (record fs { max_size = 20 }) (codes "/b") (pos 0) (some 5, some 7))
    × AccountedScan view
        (limitfs_rmdir host 1 (record fs { max_size = 20 }) (codes "/b") (some 5, some 7))
    × AccountedScan view
        (limitfs_unlink host 1 (record fs { max_size = 20 }) (codes "/b") (some 5, some 7))
account_kept_example =
    account_kept (record fs { max_size = 20 }) flat 1 3 5 (some 5, some 7) (codes "/a") (1 ∷ 2 ∷ [])
      5 (codes "/b") (pos 0) (omega arith) refl refl (omega arith) refl

-- The size found afterwards is at most four above the size before.
grown_bound :
    (first : Bool) (end : ℕ) (a b : Option ℕ) (n : ℕ)
    → lookup (if first then codes "a" else codes "b") (view (a, b)) ≡ some n
    → (k : ℕ) × (lookup
          (if first then codes "a" else codes "b")
          (view (if first then (grown end a, b) else (a, grown end b)))
        ≡ some k)
      × (k ≤ n + 4)
grown_bound true end none none n h = absurd (cc)
grown_bound true end none (some b) n h = absurd (cc)
grown_bound true end (some a) none n h = (min (max a end) (a + 4), refl, ground arith)
grown_bound true end (some a) (some b) n h = (min (max a end) (a + 4), refl, ground arith)
grown_bound false end none none n h = absurd (cc)
grown_bound false end none (some b) n h = (min (max b end) (b + 4), refl, ground arith)
grown_bound false end (some a) none n h = absurd (cc)
grown_bound false end (some a) (some b) n h = (min (max b end) (b + 4), refl, ground arith)

at_most : (n m k : ℕ) {o : Option ℕ} → o ≡ some m → o ≡ some k → k ≤ n → m ≤ n
at_most n m k e f le = ground arith

put_world :
    (fd : ℕ) (xs : List ℕ) (offset : ℕ) (w : Two)
    → (put_bytes host fd xs offset w).1 ≡ (call (Syscall.pwrite fd xs offset) w).world
unfolding put_bytes
put_world fd xs offset w = elim (Bool-cases (eqb_ℤ (wrap_s32 (pos (length xs))) (negsuc 0))) [
  | inl failed ↦ rw (failed, if◌then◌else◌) refl
  | inr went ↦ rw (went, if◌then◌else◌) refl
]

grows : GrowsBy view resolve target host 4
grows fd xs offset n m (a, b) here e =
    let (k, f, le) = grown_bound (fd == 3) (offset + length xs) a b n here in
    at_most (n + 4) m k
      (ap (lookup (target fd)) e ∙ lookup-resize (target fd) m n (view (a, b)) here)
      (ap (λ v. lookup (target fd) (view v)) (put_world fd xs offset (a, b)) ∙ f) le

-- Two writes to "a", of which the second is refused.
abbrev requests : List Request
requests =
    record { path = codes "/a"; buf = 1 ∷ 2 ∷ 3 ∷ []; offset = 5; fh = 3 }
    ∷ record { path = codes "/a"; buf = 4 ∷ 5 ∷ 6 ∷ []; offset = 8; fh = 3 }
    ∷ []

abbrev quota : Fs
quota = record { src = codes "s"; max_size = 10; cur_size = 10 }

quota_bounded_example :
    (total (view (run_writes host requests quota (some 5, some 5)).1) ≤ 14)
    × ((run_writes host requests quota (some 5, some 5)).0.cur_size
        ≡ total (view (run_writes host requests quota (some 5, some 5)).1))
quota_bounded_example =
    quota_bounded quota flat 4 requests (some 5, some 5) grows
      (refl, (5, refl), (refl, (5, refl), tt)) (omega arith) refl (omega arith)

quota_runs : view (run_writes host requests quota (some 5, some 5)).1 ≡ view (some 8, some 5)
unfolding run_writes limitfs_write put_bytes get_file_size
quota_runs = refl

abbrev again : Request
again = record { path = codes "/a"; buf = 1 ∷ 2 ∷ []; offset = 5; fh = 3 }

freed_goes_on_example :
    (limitfs_unlink host 1 fs (codes "/b") (some 5, some 7)
      ≡ some (pos 0, record { src = codes "s"; max_size = 10; cur_size = 5 }, (some 5, none)))
    × ((limitfs_write host
          (record { src = codes "s"; max_size = 10; cur_size = 5 })
          (codes "/a")
          (1 ∷ 2 ∷ [])
          5
          3
          (some 5, none)).0
        ≡ (put_bytes host 3 (1 ∷ 2 ∷ []) 5 (some 5, none)).0)
freed_goes_on_example =
    freed_goes_on fs flat 1 (codes "/b") again (some 5, some 7) (some 5, none) 5 (omega arith) refl
      refl refl refl refl (omega arith)
