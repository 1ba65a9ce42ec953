-- ===== src/Watchdog/Setup/Tests.antt =====
-- watchdog/watchdog.c: a probe that the misc device refuses after the memory has been mapped.
use linux_device_driver.Base.{ℕ, ◌^◌, ◌%◌, ◌==◌, if◌then◌else◌, refl, false, none, some, [], pos}
use linux_device_driver.Base.Errno.{ebusy}
use linux_device_driver.Register.{Port}
use linux_device_driver.Watchdog.{Priv, unknown}
use linux_device_driver.Watchdog.Setup.{Held, Answers, dev_watchdog_probe}
use linux_device_driver.Watchdog.Setup.Balance.{Result, probe_balanced}

abbrev port : Port (ℕ → ℕ)
port = record { read = λ a h. (h a % 2 ^ 8, h); write = λ v a h b. if a == b then v else h b }

abbrev zeroed : Priv
zeroed = record {
  reg_base = none;
  workqueue = none;
  use_workqueue = false;
  kick_offset = pos 0;
  kick_value = pos 0;
  enable_offset = pos 0;
  enable_value = pos 0;
  misc_registered = false;
  timer_running = false;
  timer_pending = false;
  work_pending = false;
  wd_state = unknown;
}

abbrev answers : Answers
answers = record {
  iomap = some 0x1000;
  kick_offset = some (4, pos 4);
  kick_value = some (4, pos 0x5a);
  enable_offset = none;
  enable_value = none;
  misc_register = ebusy;
  use_workqueue = false;
  workqueue = some 1;
}

abbrev nothing : Held
nothing = record { maps = 0; misc = false; queues = [] }

probe_balanced_example : Result nothing (dev_watchdog_probe port answers zeroed nothing (λ a. 0))
probe_balanced_example = probe_balanced port answers zeroed nothing (λ a. 0) (refl, refl, refl) refl
