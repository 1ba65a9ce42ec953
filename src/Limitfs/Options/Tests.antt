-- ===== src/Limitfs/Options/Tests.antt =====
-- test_suite/limitfs.c: a command line with both options and two arguments for fuse.
use linux_device_driver.Base.{
  ◌≡◌, refl, true, none, some, List, [], ◌∷◌, arith, inl, inr, pos, negsuc,
}
use linux_device_driver.Base.Text.{codes, atol, decimal}
use linux_device_driver.Limitfs.{Posix, path_max_size}
use linux_device_driver.Limitfs.Scan.{get_dir_size}
use linux_device_driver.Limitfs.Handlers.{limitfs_read}
use linux_device_driver.Limitfs.Options.{limitfs_main, mounts}
use linux_device_driver.Limitfs.Options.Items.{Item, size_option, src_option, other, mounted}

-- A host that has empty directories only.
abbrev empty : Posix (Unit {0})
empty = record {
  call = λ c w. record { ret = negsuc 0; errno = 30; world = w };
  stat = λ path w. none;
  lstat = λ path w. inl 2;
  opendir = λ path w. inr [];
  pread = λ fd n offset w. inl 5;
}

abbrev line : List Item
line =
    other (codes "limitfs")
    ∷ size_option 7
    ∷ src_option (codes "/srv")
    ∷ other (codes "/mnt")
    ∷ size_option 4096
    ∷ []

nothing : get_dir_size empty 1 tt (codes "/srv") ≡ some (true, 0)
unfolding get_dir_size
nothing = refl

mounted_example :
    (limitfs_main empty 1
        (codes "limitfs"
          ∷ codes "--size"
          ∷ codes "7"
          ∷ codes "--src"
          ∷ codes "/srv"
          ∷ codes "/mnt"
          ∷ codes "--size"
          ∷ codes "4096"
          ∷ [])
        tt
      ≡ some (
          mounts
            (record { src = codes "/srv"; max_size = 4096; cur_size = 0 })
            (codes "limitfs" ∷ codes "/mnt" ∷ [])))
    × (atol
          (limitfs_read empty
            (record { src = codes "/srv"; max_size = 4096; cur_size = 0 })
            path_max_size
            2
            1
            0
            tt).1
        ≡ pos 4096)
unfolding decimal
mounted_example =
    mounted empty line 1 4096 0 (codes "/srv") tt 2 1 0
      (refl, refl, (omega arith, (refl, refl, (omega arith, tt)))) refl refl (omega arith)
      (omega arith) nothing
