-- ===== src/Limitfs/Options/Items.antt =====
-- test_suite/limitfs.c: the command line as it is meant, and what `main` makes of it.
use linux_device_driver.Base.{
  ℕ, ◌^◌, ◌<◌, ◌≡◌, refl, ap, ◌∙◌, sym, true, false, Option, none, some, List, [], ◌∷◌, ◌++◌,
  if◌then◌else◌, ◌==◌, pos, to_word, append_assoc, append-nil, arith,
}
use linux_device_driver.Base.Maybe.{◌>>=◌}
use linux_device_driver.Base.Text.{Text, codes, text_eq, atol, decimal, atol-decimal, digits_value}
use linux_device_driver.Limitfs.{Fs, Posix, path_max_size}
use linux_device_driver.Limitfs.Scan.{get_dir_size}
use linux_device_driver.Limitfs.Handlers.{limitfs_read}
use linux_device_driver.Limitfs.Options.{Line, read_args, mounts, limitfs_main}

pub data Item : Type 0 where
  size_option : ℕ → Item
  src_option : Text → Item
  other : Text → Item

abbrev pub spelled : List Item → List Text
spelled [] = []
spelled (size_option n ∷ is) = codes "--size" ∷ decimal n ∷ spelled is
spelled (src_option d ∷ is) = codes "--src" ∷ d ∷ spelled is
spelled (other a ∷ is) = a ∷ spelled is

-- Sizes that a long can hold, and no argument that is spelled like an option.
abbrev pub Sound : List Item → Type 0
Sound [] = Unit
Sound (size_option n ∷ is) = (n < 2 ^ 63) × Sound is
Sound (src_option d ∷ is) = Sound is
Sound (other a ∷ is) =
    (text_eq a (codes "--size") ≡ false) × (text_eq a (codes "--src") ≡ false) × Sound is

-- The last of each option, or the value given.
abbrev pub last_size : List Item → ℕ → ℕ
last_size [] n = n
last_size (size_option m ∷ is) n = last_size is m
last_size (src_option d ∷ is) n = last_size is n
last_size (other a ∷ is) n = last_size is n

abbrev pub last_src : List Item → Option Text → Option Text
last_src [] s = s
last_src (size_option m ∷ is) s = last_src is s
last_src (src_option d ∷ is) s = last_src is (some d)
last_src (other a ∷ is) s = last_src is s

abbrev pub others : List Item → List Text
others [] = []
others (size_option m ∷ is) = others is
others (src_option d ∷ is) = others is
others (other a ∷ is) = a ∷ others is

read_other :
    (a : Text) (rest : List Text) (l : Line)
    → text_eq a (codes "--size") ≡ false
    → text_eq a (codes "--src") ≡ false
    → read_args (a ∷ rest) l ≡ read_args rest (record l { fuse_args = l.fuse_args ++ a ∷ [] })
unfolding read_args
read_other a [] l h k = rw (h, k, if◌then◌else◌) refl
read_other a (b ∷ rest) l h k = rw (read_args, h, k) refl

read_size :
    (n : ℕ) (rest : List Text) (l : Line)
    → n < 2 ^ 63
    → read_args (codes "--size" ∷ decimal n ∷ rest) l ≡ read_args rest (record l { max_size = n })
unfolding read_args
read_size n rest l h =
    ap (λ k. read_args rest (record l { max_size = k }))
      (ap (to_word (2 ^ 64)) (
          ap atol (sym (append-nil (decimal n)))
          ∙ atol-decimal n [] h (unfold digits_value in refl))
        ∙ omega arith)

read_src :
    (d : Text) (rest : List Text) (l : Line)
    → read_args (codes "--src" ∷ d ∷ rest) l ≡ read_args rest (record l { src = some d })
unfolding read_args
read_src d rest l = refl

read_nil : (l : Line) → read_args [] l ≡ some l
unfolding read_args
read_nil l = refl

-- The line `l` with fuse_args replaced.
abbrev with_args : Line → List Text → Line
with_args l xs = record l { fuse_args = xs }

read_spelled :
    (is : List Item) (l : Line)
    → Sound is
    → read_args (spelled is) l
      ≡ some (record {
        src = last_src is l.src;
        max_size = last_size is l.max_size;
        fuse_args = l.fuse_args ++ others is;
      })
read_spelled [] l h = read_nil l ∙ ap (λ xs. some (with_args l xs)) (sym (append-nil l.fuse_args))
read_spelled (size_option n ∷ is) l h =
    read_size n (spelled is) l h.0 ∙ read_spelled is (record l { max_size = n }) h.1
read_spelled (src_option d ∷ is) l h =
    read_src d (spelled is) l ∙ read_spelled is (record l { src = some d }) h
read_spelled (other a ∷ is) l h =
    read_other a (spelled is) l h.0 h.1
    ∙ read_spelled is (record l { fuse_args = l.fuse_args ++ a ∷ [] }) h.2
    ∙ ap
        (λ xs. some (
          with_args
            (record { src = last_src is l.src; max_size = last_size is l.max_size; fuse_args = [] })
            xs))
        (append_assoc l.fuse_args (a ∷ []) (others is))

module _ {W : Type 0} (host : Posix W) where
  main_spelled :
      (is : List Item) (fuel n k : ℕ) (d : Text) (w : W)
      → Sound is
      → last_src is none ≡ some d
      → last_size is 0 ≡ n
      → (n == 0) ≡ false
      → get_dir_size host fuel w d ≡ some (true, k)
      → limitfs_main host fuel (spelled is) w
        ≡ some (mounts (record { src = d; max_size = n; cur_size = k }) (others is))
  unfolding limitfs_main
  main_spelled is fuel n k d w sound src size ne scan =
      rw
        (
          limitfs_main,
          read_spelled is (record { src = none; max_size = 0; fuse_args = [] }) sound,
          ◌>>=◌,
          src,
          size,
          ne,
          if◌then◌else◌,
          scan,
        )
        refl

  told :
      (fs : Fs) (size offset fh : ℕ) (w : W)
      → fs.max_size < 2 ^ 63
      → atol (limitfs_read host fs path_max_size size offset fh w).1 ≡ pos fs.max_size
  unfolding limitfs_read
  told fs size offset fh w h = atol-decimal fs.max_size (10 ∷ []) h (unfold digits_value in refl)

  -- A command line of options and other arguments in any order, where sizes are written in decimal
  -- and fit in a long, no other argument is spelled like an option, the last directory given is `d`,
  -- the last size is `n`, not 0, and the scan of `d` gives `k`: the program mounts `d` with max_size
  -- `n` and cur_size `k`, fuse gets exactly the other arguments in their order, and the text that a
  -- read of /max_size then gives, whatever its size and offset, is read back by atol as `n`.
  pub mounted :
      (is : List Item) (fuel n k : ℕ) (d : Text) (w : W) (size offset fh : ℕ)
      → Sound is
      → last_src is none ≡ some d
      → last_size is 0 ≡ n
      → 0 < n
      → n < 2 ^ 63
      → get_dir_size host fuel w d ≡ some (true, k)
      → (limitfs_main host fuel (spelled is) w
          ≡ some (mounts (record { src = d; max_size = n; cur_size = k }) (others is)))
        × (atol
              (limitfs_read host
                (record { src = d; max_size = n; cur_size = k })
                path_max_size
                size
                offset
                fh
                w).1
            ≡ pos n)
  mounted is fuel n k d w size offset fh sound src last positive small scan = (
    main_spelled is fuel n k d w sound src last (ground arith) scan,
    told (record { src = d; max_size = n; cur_size = k }) size offset fh w small,
  )
