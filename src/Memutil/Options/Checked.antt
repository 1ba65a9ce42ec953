-- ===== src/Memutil/Options/Checked.antt =====
-- test_suite/memutil/work_paras.c, test_suite/memutil/mem_util.c: which command lines are carried out.
use linux_device_driver.Base.{
  ℕ, ◌≡◌, refl, Bool, true, false, not, ◌&&◌, none, some, List, if◌then◌else◌, ◌==◌, arith,
}
use linux_device_driver.Base.Text.{Text}
use linux_device_driver.Memutil.{Params}
use linux_device_driver.Memutil.Options.{
  Opt, zeroed, check_paras, checked, perform_action, has_verbose_opt, option_loop,
  parse_cmdline_options, memutil_main,
}

-- Both actions need a length and a path, and exclude one another.
abbrev pub is_complete : Params → Bool
is_complete p = not (p.length_ == 0) && elim p.file_path [ none ↦ false | some f ↦ true ]

-- What is done with options that have been read.
module _ {A : Type 0} (save load : Params → A) (bad : A) where
  abbrev pub action : Params → A
  action p =
      if is_complete p && (p.save_to_file && not p.load_from_file)
      then save p
      else if is_complete p && (p.load_from_file && not p.save_to_file)
      then load p
      else bad

  by_checks :
      (idle : A) (p : Params) → perform_action save load bad idle (check_paras p, p) ≡ action p
  unfolding check_paras
  by_checks idle p = ground arith

  by_loop :
      (idle : A) (r : Bool × Params)
      → perform_action save load bad idle (checked r) ≡ (if r.0 then action r.1 else bad)
  by_loop idle (true, p) = by_checks idle p
  by_loop idle (false, p) = refl

  -- For every command line: with an option that is not known the program does nothing and returns -1;
  -- otherwise it saves exactly if there is a length other than 0, a path, and --save-to-file without
  -- --load-from-file, loads exactly if there are these and the other action alone, and returns -1 in
  -- every other case. It never leaves both actions undone with the result 0.
  pub carried_out :
      (strtoull : Text → ℕ) (idle : A) (argv : List Text) (os : List Opt)
      → memutil_main strtoull save load bad idle argv os ≡ (
          if (option_loop strtoull os (record zeroed { verbose = has_verbose_opt argv })).0
          then action (option_loop strtoull os (record zeroed { verbose = has_verbose_opt argv })).1
          else bad)
  unfolding memutil_main parse_cmdline_options
  carried_out strtoull idle argv os =
      by_loop idle (option_loop strtoull os (record zeroed { verbose = has_verbose_opt argv }))
