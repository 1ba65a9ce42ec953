-- ===== src/Memutil/Options.antt =====
-- test_suite/memutil/work_paras.c, test_suite/memutil/mem_util.c: the options and `main`.
pub mod Checked
use linux_device_driver.Base.{
  ℕ, zero, suc, Bool, true, false, not, ◌&&◌, ◌||◌, Option, none, some, List, [], ◌∷◌, drop,
  if◌then◌else◌, ◌==◌, ℤ, pos, negsuc,
}
use linux_device_driver.Base.Text.{Text, codes, text_eq}
use linux_device_driver.Memutil.{Params}

-- What getopt_long returns for one option, with optarg where it takes one.
pub data Opt : Type 0 where
  verbose_option : Opt
  start_option : Text → Opt
  length_option : Text → Opt
  save_option : Opt
  load_option : Opt
  path_option : Text → Opt
  other_option : Opt

-- The static variable gt_working_params.
abbrev pub zeroed : Params
zeroed = record {
  verbose = false;
  start_phy_addr = 0;
  length_ = 0;
  save_to_file = false;
  load_from_file = false;
  file_path = none;
}

unfoldable pub check_paras : Params → ℤ
check_paras p =
    if p.length_ == 0
    then negsuc 0
    else if not p.save_to_file && not p.load_from_file
    then negsuc 0
    else if p.save_to_file && p.load_from_file
    then negsuc 0
    else elim p.file_path [ none ↦ negsuc 0 | some f ↦ pos 0 ]

unfoldable pub has_verbose : List Text → Bool
has_verbose [] = false
has_verbose (a ∷ rest) = text_eq a (codes "--verbose") || has_verbose rest

-- The arguments behind the name of the program.
abbrev pub has_verbose_opt : List Text → Bool
has_verbose_opt argv = has_verbose (drop 1 argv)

-- Behind the loop over the options.
abbrev pub checked : Bool × Params → ℤ × Params
checked (ok, p) = if ok then (check_paras p, p) else (negsuc 0, p)

-- What `main` does with what parse_cmdline_options returns: -1, save, load, or nothing.
abbrev pub perform_action : {A : Type 0} → (Params → A) → (Params → A) → A → A → ℤ × Params → A
perform_action save load bad idle (negsuc n, p) = bad
perform_action save load bad idle (pos (suc n), p) = bad
perform_action save load bad idle (pos zero, p) =
    if p.save_to_file then save p else if p.load_from_file then load p else idle

module _ (strtoull : Text → ℕ) where
  -- The loop over getopt_long: whether it runs to its end.
  unfoldable pub option_loop : List Opt → Params → Bool × Params
  option_loop [] p = (true, p)
  option_loop (verbose_option ∷ os) p = option_loop os (record p { verbose = true })
  option_loop (start_option t ∷ os) p = option_loop os (record p { start_phy_addr = strtoull t })
  option_loop (length_option t ∷ os) p = option_loop os (record p { length_ = strtoull t })
  option_loop (save_option ∷ os) p = option_loop os (record p { save_to_file = true })
  option_loop (load_option ∷ os) p = option_loop os (record p { load_from_file = true })
  option_loop (path_option t ∷ os) p = option_loop os (record p { file_path = some t })
  option_loop (other_option ∷ os) p = (false, p)

  -- getopt_long finds the options `os` in the arguments `argv`.
  unfoldable pub parse_cmdline_options : List Text → List Opt → ℤ × Params
  unfolding option_loop
  parse_cmdline_options argv os =
      checked (option_loop os (record zeroed { verbose = has_verbose_opt argv }))

  -- `main`
  unfoldable pub memutil_main :
      {A : Type 0} → (Params → A) → (Params → A) → A → A → List Text → List Opt → A
  unfolding parse_cmdline_options
  memutil_main save load bad idle argv os =
      perform_action save load bad idle (parse_cmdline_options argv os)
