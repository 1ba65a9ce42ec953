-- ===== src/Watchdog.antt =====
-- watchdog/watchdog.c: kicking a hardware watchdog through its registers, by command or from a timer.
pub mod Commands
pub mod Timer
pub mod Setup
mod Tests
use linux_device_driver.Base.{
  ℕ, ◌+◌, ◌^◌, Bool, true, false, not, ◌&&◌, ◌||◌, Option, none, some, List, [], ◌∷◌, if◌then◌else◌,
  ◌==◌, bit_and, ℤ, pos, negsuc, ◌+ℤ◌, eqb_ℤ, to_word, to_u32, length,
}
use linux_device_driver.Base.Kernel.{Uaccess}
use linux_device_driver.Base.Errno.{einval, efault}
use linux_device_driver.Register.{Port, dev_write, dev_read_modify_write, dev_read}

-- WD_PROP_NONE
abbrev pub wd_prop_none : ℤ
wd_prop_none = negsuc 0

pub data WdState : Type 0 where
  unknown disabled enabled : WdState

-- `struct dev_watchdog`; NULL pointers are `none`. `timer_pending` is the kernel's part of the timer,
-- `work_pending` that of the work item.
pub record Priv : Type 0 where
  pub reg_base : Option ℕ
  pub workqueue : Option ℕ
  pub use_workqueue : Bool
  pub kick_offset : ℤ
  pub kick_value : ℤ
  pub enable_offset : ℤ
  pub enable_value : ℤ
  pub misc_registered : Bool
  pub timer_running : Bool
  pub timer_pending : Bool
  pub work_pending : Bool
  pub wd_state : WdState

-- `priv.reg_base + offset`
abbrev pub register : Priv → ℤ → ℕ
register p offset = elim p.reg_base [
  | none ↦ to_word (2 ^ 64) offset
  | some base ↦ to_word (2 ^ 64) (pos base +ℤ offset)
]

-- The conversion of an `int` to `u8`.
abbrev pub to_u8 : ℤ → ℕ
to_u8 z = to_word (2 ^ 8) z

-- Whether the device tree names an enable register.
abbrev pub has_enable : Priv → Bool
has_enable p = not (eqb_ℤ p.enable_offset wd_prop_none) && not (eqb_ℤ p.enable_value wd_prop_none)

-- `(reg & value) ? WD_STATE_ENABLED : WD_STATE_DISABLED`
abbrev pub state_of : ℕ → ℤ → WdState
state_of reg value = if bit_and reg (to_u32 value) == 0 then disabled else enabled

-- The two statements of `dev_watchdog_start`.
abbrev pub set_running : Priv → Priv
set_running p = record p { timer_running = true }

abbrev pub mod_timer : Priv → Priv
mod_timer p = record p { timer_pending = true }

pub dev_watchdog_start : Priv → Priv
dev_watchdog_start p = mod_timer (set_running p)

-- The two statements of `dev_watchdog_stop`.
abbrev pub clear_running : Priv → Priv
clear_running p = record p { timer_running = false }

abbrev pub del_timer_sync : Priv → Priv
del_timer_sync p = record p { timer_pending = false }

pub dev_watchdog_stop : Priv → Priv
dev_watchdog_stop p = del_timer_sync (clear_running p)

pub data Command : Type 0 where
  quit kick start enable disable invalid : Command

-- The cases of the switch: each command has a number, a digit and two letters.
pub command_of : ℕ → Command
command_of c =
    if c == 0 || c == b'0' || c == b'q' || c == b'Q'
    then quit
    else if c == 1 || c == b'1' || c == b'k' || c == b'K'
    then kick
    else if c == 2 || c == b'2' || c == b's' || c == b'S'
    then start
    else if c == 3 || c == b'3' || c == b'e' || c == b'E'
    then enable
    else if c == 4 || c == b'4' || c == b'd' || c == b'D'
    then disable
    else invalid

module _ {H : Type 0} (port : Port H) where
  pub dev_watchdog_kick : Priv → H → H
  dev_watchdog_kick p h = dev_write port (register p p.kick_offset) (to_u8 p.kick_value) h

  pub dev_watchdog_enable : Bool → Priv → H → Priv × H
  dev_watchdog_enable on p h =
      if has_enable p
      then (let h' : H =
            dev_read_modify_write port (register p p.enable_offset) (to_u8 p.enable_value)
              (if on then to_u8 p.enable_value else 0) h in
          let (reg, h'') = dev_read port (register p p.enable_offset) h' in
          (record p { wd_state = state_of reg p.enable_value }, h''))
      else (p, h)

  pub dev_watchdog_read_enable : Priv → H → Priv × H
  dev_watchdog_read_enable p h =
      if has_enable p
      then (let (reg, h') = dev_read port (register p p.enable_offset) h in
          (record p { wd_state = state_of reg p.enable_value }, h'))
      else (record p { wd_state = unknown }, h)

  -- The work item, when the queue runs it.
  pub dev_watchdog_work : Priv → H → Priv × H
  dev_watchdog_work p h = (record p { work_pending = false }, dev_watchdog_kick p h)

  -- The handler behind its test, up to the mod_timer at its end.
  pub serve : Priv → H → Priv × H
  serve p h =
      if p.use_workqueue
      then (set_running (record p { work_pending = true }), h)
      else (set_running p, dev_watchdog_kick p h)

  -- `dev_watchdog_timeout` behind its test.
  pub expire : Priv → H → Priv × H
  expire p h = let (p', h') = serve p h in (mod_timer p', h')

  -- The kernel calls it for a timer that is no longer pending.
  pub dev_watchdog_timeout : Priv → H → Priv × H
  dev_watchdog_timeout p h = if not p.timer_running then (p, h) else expire p h

  execute : Command → ℕ → Priv → H → ℤ × Priv × H
  execute quit len p h = (pos len, dev_watchdog_stop p, h)
  execute kick len p h = (pos len, p, dev_watchdog_kick p h)
  execute start len p h = (pos len, dev_watchdog_start p, h)
  execute enable len p h = let (p', h') = dev_watchdog_enable true p h in (pos len, p', h')
  execute disable len p h = let (p', h') = dev_watchdog_enable false p h in (pos len, p', h')
  execute invalid len p h = (einval, p, h)

  -- `c` is what get_user reads from the user's buffer; `none`: it cannot be read.
  pub dev_watchdog_write : Option ℕ → ℕ → Priv → H → ℤ × Priv × H
  dev_watchdog_write none len p h = (efault, p, h)
  dev_watchdog_write (some c) len p h = execute (command_of c) len p h

-- `wd_state_str[priv.wd_state][0]`
abbrev pub state_letter : WdState → ℕ
state_letter unknown = b'u'
state_letter disabled = b'd'
state_letter enabled = b'e'

-- What sprintf makes of "t=%d s=%c\n".
abbrev pub report : Priv → List ℕ
report p =
    b't'
    ∷ b'='
    ∷ (if p.timer_running then b'1' else b'0')
    ∷ b' '
    ∷ b's'
    ∷ b'='
    ∷ state_letter p.wd_state
    ∷ 10
    ∷ []

-- `open` tells whether file->private_data is set, which `dev_watchdog_open` does; the length that the
-- user asks for is not used.
pub dev_watchdog_read : {Buf : Type 0} → Uaccess Buf → Priv → Bool → Buf → ℕ → ℤ × Bool × Buf
dev_watchdog_read ua p false buf len = (pos 0, false, buf)
dev_watchdog_read ua p true buf len =
    let (buf', left) = ua.copy_to_user buf (report p) in
    ((if left == 0 then pos (length (report p)) else efault), false, buf')
