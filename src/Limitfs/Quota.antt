-- ===== src/Limitfs/Quota.antt =====
-- test_suite/limitfs.c: how far the files can grow past max_size, and when writes go on.
use mathlib.Core.Path.{subst}
use linux_device_driver.Base.{
  ℕ, ◌+◌, ◌^◌, ◌≤◌, ◌<◌, ◌≡◌, refl, ap, ◌∙◌, sym, true, false, some, List, [], ◌∷◌, if◌then◌else◌,
  ltb, arith, u64, inl, inr, Bool-cases, ℤ, pos,
}
use linux_device_driver.Base.Text.{Text}
use linux_device_driver.Limitfs.{Fs, Posix, Syscall, is_reserved, join}
use linux_device_driver.Limitfs.Handlers.{
  put_bytes, resized, limitfs_write, limitfs_unlink, rescanned, enobufs, status,
}
use linux_device_driver.Limitfs.Steps.{
  file_size-some, write_reserved, write_denied, write_done, rescanned_done,
}
use linux_device_driver.Limitfs.Flat.{
  Table, total, lookup, resize, IsFlat, lookup-resize, lookup-resize-some, resize_same,
  total-resize, resized_lem, lookup-le, put_view, flat_size,
}

-- A call of the write handler.
pub record Request : Type 0 where
  pub path : Text
  pub buf : List ℕ
  pub offset : ℕ
  pub fh : ℕ

-- The state after the writes, one after the other.
unfoldable pub run_writes : {W : Type 0} → Posix W → List Request → Fs → W → Fs × W
run_writes host [] fs w = (fs, w)
run_writes host (q ∷ qs) fs w =
    let (_, fs', w') = limitfs_write host fs q.path q.buf q.offset q.fh w in
    run_writes host qs fs' w'

module _ {W : Type 0} (view : W → Table) (resolve : Text → Text) (target : ℕ → Text) where
  -- Every request has a descriptor that is open on the file of its path.
  abbrev pub AllOpen : Text → List Request → W → Type 0
  AllOpen src [] w = Unit
  AllOpen src (q ∷ qs) w =
      (resolve (join src q.path) ≡ target q.fh)
      × ((n : ℕ) × (lookup (target q.fh) (view w) ≡ some n))
      × AllOpen src qs w

  -- pwrite makes no file longer by more than `g`.
  abbrev pub GrowsBy : Posix W → ℕ → Type 0
  GrowsBy host g =
      (fd : ℕ) (xs : List ℕ) (offset n m : ℕ) (w : W)
      → lookup (target fd) (view w) ≡ some n
      → view (put_bytes host fd xs offset w).1 ≡ resize (target fd) m (view w)
      → m ≤ n + g

  AllOpen-resize :
      (src j : Text) (m : ℕ) (qs : List Request) (w w' : W)
      → view w' ≡ resize j m (view w)
      → AllOpen src qs w
      → AllOpen src qs w'
  AllOpen-resize src j m [] w w' e h = tt
  AllOpen-resize src j m (q ∷ qs) w w' e h =
      let (n, there) = h.1 in
      let (n', now) = lookup-resize-some j (target q.fh) m n (view w) there in
      (h.0, (n', rw e now), AllOpen-resize src j m qs w w' e h.2)

module _ {W : Type 0} {host : Posix W} (fs : Fs) {view : W → Table} {resolve : Text → Text}
    {target : ℕ → Text} (flat : IsFlat host fs.src view resolve target) (g : ℕ)
    (grows : GrowsBy view resolve target host g) (fits : fs.max_size + g < 2 ^ 64) where
  -- What one write does to the sum, of which cur_size is the value.
  abbrev Bounded : Request → W → ℤ × Fs × W → Type 0
  Bounded q w r =
      (m : ℕ) × (r.1 ≡ record fs { cur_size = total (view r.2) })
      × (view r.2 ≡ resize (target q.fh) m (view w))
      × (total (view r.2) ≤ fs.max_size + g)

  unchanged :
      (q : Request) (w w' : W) (ret : ℤ) (n : ℕ)
      → fs.cur_size ≡ total (view w)
      → lookup (target q.fh) (view w) ≡ some n
      → total (view w) ≤ fs.max_size + g
      → view w' ≡ view w
      → Bounded q w (ret, fs, w')
  unchanged q w w' ret n acc here bound e = (
    n,
    ap (λ c. record fs { cur_size = c }) (acc ∙ ap total (sym e)),
    e ∙ sym (resize_same (target q.fh) n (view w) here),
    rw e bound,
  )

  one_write :
      (q : Request) (w : W) (n : ℕ)
      → resolve (join fs.src q.path) ≡ target q.fh
      → lookup (target q.fh) (view w) ≡ some n
      → fs.cur_size ≡ total (view w)
      → total (view w) ≤ fs.max_size + g
      → Bounded q w (limitfs_write host fs q.path q.buf q.offset q.fh w)
  one_write q w n same here acc bound = elim (Bool-cases (is_reserved q.path)) [
    | inl own ↦
        subst (Bounded q w) (sym (write_reserved host fs q.path q.buf q.offset q.fh w own))
          (unchanged q w w (pos 0) n acc here bound refl)
    | inr plain ↦ elim (Bool-cases (ltb fs.max_size fs.cur_size)) [
      | inl over ↦
          subst (Bounded q w) (sym (write_denied host fs q.path q.buf q.offset q.fh w plain over)) (
            unchanged q w (host.call (Syscall.close q.fh) w).world enobufs n acc here bound
              (flat.closed q.fh w))
      | inr room ↦
          let w' : W = (put_bytes host q.fh q.buf q.offset w).1 in
          let p : Text = join fs.src q.path in
          let (m, e) = put_view flat q.fh q.buf q.offset w in
          let before : host.stat p w ≡ some (false, n) = flat.found p n w (rw same here) in
          let there : lookup (target q.fh) (view w') ≡ some m =
            rw e (lookup-resize (target q.fh) m n (view w) here) in
          let after : host.stat p w' ≡ some (false, m) = flat.found p m w' (rw same there) in
          let sum : total (view w') + n ≡ total (view w) + m =
            rw e (total-resize (target q.fh) m n (view w) here) in
          let more : m ≤ n + g = grows q.fh q.buf q.offset n m w here e in
          let low : fs.cur_size ≤ fs.max_size = ground arith in
          let le : total (view w') ≤ fs.max_size + g = omega (arith, acc) in
          let small : total (view w) < 2 ^ 64 = omega (arith, acc) in
          let whole : u64 (total (view w)) ≡ fs.cur_size = omega (arith, acc) in
          let whole' : u64 (total (view w')) ≡ total (view w') = omega arith in
          let new : resized fs.cur_size n m ≡ total (view w') =
            ap (λ c. resized c n m) (sym whole)
            ∙ resized_lem (total (view w)) (total (view w')) n m small
                (lookup-le (target q.fh) n (view w) here) sum
            ∙ whole' in
          subst (Bounded q w)
            (sym (
              write_done host fs q.path q.buf q.offset q.fh w plain n m room
                (file_size-some host p w before) (file_size-some host p w' after)))
            (m, ap (λ c. record fs { cur_size = c }) new, e, le)
    ]
  ]

module _ {W : Type 0} {host : Posix W} {view : W → Table} {resolve : Text → Text}
    {target : ℕ → Text} where
  -- A write to a file that is there is refused exactly when cur_size is above max_size.
  write_answer :
      (fs : Fs) (flat : IsFlat host fs.src view resolve target) (q : Request) (w : W) (n : ℕ)
      → is_reserved q.path ≡ false
      → resolve (join fs.src q.path) ≡ target q.fh
      → lookup (target q.fh) (view w) ≡ some n
      → (limitfs_write host fs q.path q.buf q.offset q.fh w).0 ≡ (
          if ltb fs.max_size fs.cur_size then enobufs else (put_bytes host q.fh q.buf q.offset w).0)
  write_answer fs flat q w n plain same here = elim (Bool-cases (ltb fs.max_size fs.cur_size)) [
    | inl over ↦
        ap (λ r. r.0) (write_denied host fs q.path q.buf q.offset q.fh w plain over) ∙ rw over refl
    | inr room ↦
        let w' : W = (put_bytes host q.fh q.buf q.offset w).1 in
        let p : Text = join fs.src q.path in
        let (m, e) = put_view flat q.fh q.buf q.offset w in
        let there : lookup (target q.fh) (view w') ≡ some m =
          rw e (lookup-resize (target q.fh) m n (view w) here) in
        ap (λ r. r.0)
          (write_done host fs q.path q.buf q.offset q.fh w plain n m room
            (file_size-some host p w (flat.found p n w (rw same here)))
            (file_size-some host p w' (flat.found p m w' (rw same there))))
        ∙ rw room refl
  ]

  -- In a directory without subdirectories (but for "." and "..", which readdir may give), where pwrite
  -- makes no file longer by more than `g`, and cur_size is the sum of the sizes: any sequence of writes,
  -- each through a descriptor that is open on an existing file, leaves cur_size the sum of the sizes,
  -- and leaves this sum at most `g` above max_size if it was so before. max_size + `g` is below 2 ^ 64.
  pub quota_bounded :
      (fs : Fs) (flat : IsFlat host fs.src view resolve target) (g : ℕ) (qs : List Request) (w : W)
      → GrowsBy view resolve target host g
      → AllOpen view resolve target fs.src qs w
      → fs.max_size + g < 2 ^ 64
      → fs.cur_size ≡ total (view w)
      → total (view w) ≤ fs.max_size + g
      → (total (view (run_writes host qs fs w).1) ≤ fs.max_size + g)
        × ((run_writes host qs fs w).0.cur_size ≡ total (view (run_writes host qs fs w).1))
  unfolding run_writes
  quota_bounded fs flat g [] w grows all fits acc bound = (bound, acc)
  quota_bounded fs flat g (q ∷ qs) w grows all fits acc bound =
      let (n, here) = all.1 in
      let r : ℤ × Fs × W = limitfs_write host fs q.path q.buf q.offset q.fh w in
      let (m, e, v, le) = one_write fs flat g grows fits q w n all.0 here acc bound in
      let fs' : Fs = record fs { cur_size = total (view r.2) } in
      let later : AllOpen view resolve target fs.src qs r.2 =
        AllOpen-resize view resolve target fs.src (target q.fh) m qs w r.2 v all.2 in
      subst
        (λ s.
          (total (view (run_writes host qs s r.2).1) ≤ fs.max_size + g)
          × ((run_writes host qs s r.2).0.cur_size ≡ total (view (run_writes host qs s r.2).1)))
        (sym e) (quota_bounded fs' flat g qs r.2 grows later fits refl le)

  -- In a directory without subdirectories (but for "." and ".."), whose sizes add up to less than
  -- 2 ^ 64 after the call that unlink makes: unlink comes to an end, with cur_size the sum of the sizes
  -- that remain whatever it was before, and the next write, through a descriptor that is open on an
  -- existing file, goes on exactly when that sum is at most max_size: it returns what pwrite answers,
  -- else -ENOBUFS. Neither name is reserved, and there is fuel for one directory.
  pub freed_goes_on :
      (fs : Fs) (flat : IsFlat host fs.src view resolve target) (fuel : ℕ) (gone : Text)
      (q : Request) (w w' : W) (n : ℕ)
      → 0 < fuel
      → is_reserved gone ≡ false
      → is_reserved q.path ≡ false
      → (host.call (Syscall.unlink (join fs.src gone)) w).world ≡ w'
      → resolve (join fs.src q.path) ≡ target q.fh
      → lookup (target q.fh) (view w') ≡ some n
      → total (view w') < 2 ^ 64
      → (limitfs_unlink host fuel fs gone w
          ≡ some (
            status (host.call (Syscall.unlink (join fs.src gone)) w),
            record fs { cur_size = total (view w') },
            w',
          ))
        × ((limitfs_write host
              (record fs { cur_size = total (view w') })
              q.path
              q.buf
              q.offset
              q.fh
              w').0
            ≡ (if ltb fs.max_size (total (view w'))
                then enobufs
                else (put_bytes host q.fh q.buf q.offset w').0))
  unfolding limitfs_unlink
  freed_goes_on fs flat fuel gone q w w' n enough other plain gives same here small =
      let c : Syscall = Syscall.unlink (join fs.src gone) in
      let whole : u64 (total (view w')) ≡ total (view w') = omega arith in
      (
        ap (λ b. rescanned host fuel fs b c w) other
            ∙ rescanned_done host fs c w fuel (total (view w')) true
                (rw gives (flat_size flat fuel w' enough ∙ ap (λ k. some (true, k)) whole))
            ∙ ap (λ v. some (status (host.call c w), record fs { cur_size = total (view w') }, v))
                gives,
        write_answer (record fs { cur_size = total (view w') }) flat q w' n plain same here,
      )
