-- ===== src/Watchdog/Tests.antt =====
-- watchdog/watchdog.c on a device whose registers are a memory.
use linux_device_driver.Base.{
  ℕ, ◌%◌, ◌^◌, ◌<◌, ◌≡◌, ◌≢◌, refl, true, false, if◌then◌else◌, ◌==◌, some, pos, arith,
}
use linux_device_driver.Base.Bits.{bit}
use linux_device_driver.Register.{Port}
use linux_device_driver.Register.Masked.{IsMemory, merged}
use linux_device_driver.Watchdog.{Priv, unknown, enabled, dev_watchdog_enable}
use linux_device_driver.Watchdog.Commands.{enable_told}
use linux_device_driver.Watchdog.Timer.{
  System, free, out, Steps, none_yet, later, begin_start, end_start, begin_stop, end_stop, fires,
  Begins, Quiet, stopped-Quiet,
}

abbrev File : Type 0
File = ℕ → ℕ

abbrev reg : File → ℕ → ℕ
reg h a = h a % 2 ^ 8

abbrev port : Port File
port = record { read = λ a h. (h a % 2 ^ 8, h); write = λ v a h b. if a == b then v else h b }

port-IsMemory : IsMemory port 8 reg
port-IsMemory = record {
  reads = λ a h. refl;
  read_keeps = λ a h b. refl;
  writes = λ v a h b small. ground arith;
  width = λ h a. omega arith;
}

abbrev device : Priv
device = record {
  reg_base = some 0x1000;
  workqueue = some 1;
  use_workqueue = false;
  kick_offset = pos 4;
  kick_value = pos 0x5a;
  enable_offset = pos 6;
  enable_value = pos 3;
  misc_registered = true;
  timer_running = false;
  timer_pending = false;
  work_pending = false;
  wd_state = unknown;
}

abbrev quiet_file : File
quiet_file a = 0xf0

enable_told_example :
    let (p', h') = dev_watchdog_enable port true device quiet_file in
    (p'.wd_state ≡ enabled)
    × ((i : ℕ) → i < 8 → bit i (reg h' 0x1006) ≡ merged i (reg quiet_file 0x1006) 3 3)
    × ((b : ℕ) → b ≢ 0x1006 → reg h' b ≡ reg quiet_file b)
enable_told_example =
    enable_told port reg port-IsMemory device true quiet_file refl (λ e. ground arith)

abbrev begun : System File
begun = record { priv = device; hw = quiet_file; user = λ i. free; handler = out }

abbrev begins : Begins port begun
begins = (refl, refl, λ i. refl, refl)

record Run : Type 0 where
  last : System File
  steps : Steps port begun last

abbrev started : Run
started = record {
  last = _;
  steps = later (later none_yet (begin_start 0 refl)) (end_start 0 refl);
}

-- Started, and stopped again.
abbrev halted : Run
halted = record {
  last = _;
  steps = later (later started.steps (begin_stop 0 refl)) (end_stop 0 refl refl);
}

stopped-Quiet_example : Quiet port halted.last
stopped-Quiet_example =
    stopped-Quiet port 0 begins halted.steps ((((tt, refl), refl), refl), refl) refl refl

-- Started, and the handler past its test.
abbrev firing : Run
firing = record { last = _; steps = later started.steps (fires refl refl refl) }
