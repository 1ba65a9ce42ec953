-- ===== src/Limitfs/Options.antt =====
-- test_suite/limitfs.c: `main`, from the command line to the call of fuse_main.
pub mod Items
mod Tests
use linux_device_driver.Base.{
  ℕ, ◌^◌, ◌≡◌, refl, ap, Bool, true, false, Option, none, some, List, [], ◌∷◌, ◌++◌, if◌then◌else◌,
  ◌==◌, ◌||◌, ℤ, pos, negsuc, to_word, append_assoc, append-nil, inl, inr, Bool-cases,
}
use linux_device_driver.Base.Maybe.{◌>>=◌}
use linux_device_driver.Base.Text.{Text, codes, text_eq, atol}
use linux_device_driver.Limitfs.{Fs, Posix}
use linux_device_driver.Limitfs.Scan.{get_dir_size}

-- src, max_size, and fuse_args up to `pos`.
pub record Line : Type 0 where
  pub src : Option Text
  pub max_size : ℕ
  pub fuse_args : List Text

-- The loop over argv. `none`: --size stands last, and atol is given the null pointer behind argv.
unfoldable pub read_args : List Text → Line → Option Line
read_args [] l = some l
read_args (a ∷ []) l =
    if text_eq a (codes "--size")
    then none
    else if text_eq a (codes "--src")
    then some (record l { src = none })
    else some (record l { fuse_args = l.fuse_args ++ a ∷ [] })
read_args (a ∷ b ∷ rest) l = elim (text_eq a (codes "--size")) [
  | true ↦ read_args rest (record l { max_size = to_word (2 ^ 64) (atol b) })
  | false ↦ elim (text_eq a (codes "--src")) [
    | true ↦ read_args rest (record l { src = some b })
    | false ↦ read_args (b ∷ rest) (record l { fuse_args = l.fuse_args ++ a ∷ [] })
  ]
]

-- What `main` comes to: a result, or the call of fuse_main with the state and the arguments.
pub data Outcome : Type 0 where
  exits : ℤ → Outcome
  mounts : Fs → List Text → Outcome

module _ {W : Type 0} (host : Posix W) where
  -- The fuel is for get_dir_size.
  unfoldable pub limitfs_main : ℕ → List Text → W → Option Outcome
  unfolding read_args
  limitfs_main fuel argv w =
      read_args argv (record { src = none; max_size = 0; fuse_args = [] }) >>= λ l. elim l.src [
        | none ↦ some (exits (pos 1))
        | some src ↦
            if l.max_size == 0
            then some (exits (pos 1))
            else (get_dir_size host fuel w src >>= λ s. some (
                if s.0
                then mounts (record { src = src; max_size = l.max_size; cur_size = s.1 })
                    l.fuse_args
                else exits (negsuc 0)))
      ]
