-- ===== src/Watchdog/Timer.antt =====
-- watchdog/watchdog.c: the timer handler on one processor and the commands of any number of users, who
-- share no lock. The commands that leave the timer alone are no steps.
use linux_device_driver.Base.{ℕ, ◌≡◌, refl, true, false, ◌==◌, if◌then◌else◌, arith}
use linux_device_driver.Register.{Port}
use linux_device_driver.Watchdog.{
  Priv, set_running, mod_timer, clear_running, del_timer_sync, serve,
}

-- Where a user stands: in no command that touches the timer, or between the two statements of
-- `dev_watchdog_start` or of `dev_watchdog_stop`.
pub data User : Type 0 where
  free starting stopping : User

-- Where the handler stands: not running, past its test of `timer_running`, or before its mod_timer.
pub data Handler : Type 0 where
  out passed arming : Handler

pub record System (H : Type 0) : Type 0 where
  pub priv : Priv
  pub hw : H
  pub user : ℕ → User
  pub handler : Handler

abbrev pub goes : (ℕ → User) → ℕ → User → ℕ → User
goes f i u j = if i == j then u else f j

module _ {H : Type 0} (port : Port H) where
  pub data Step (s : System H) : System H → Type 0 where
    begin_start :
        (i : ℕ)
        → s.user i ≡ free
        → Step s (record s { priv = set_running s.priv; user = goes s.user i starting })
    end_start :
        (i : ℕ)
        → s.user i ≡ starting
        → Step s (record s { priv = mod_timer s.priv; user = goes s.user i free })
    begin_stop :
        (i : ℕ)
        → s.user i ≡ free
        → Step s (record s { priv = clear_running s.priv; user = goes s.user i stopping })
    -- del_timer_sync waits for the handler
    end_stop :
        (i : ℕ)
        → s.user i ≡ stopping
        → s.handler ≡ out
        → Step s (record s { priv = del_timer_sync s.priv; user = goes s.user i free })
    -- the timer expires, and the handler returns at its test
    ignored :
        s.handler ≡ out
        → s.priv.timer_pending ≡ true
        → s.priv.timer_running ≡ false
        → Step s (record s { priv = record s.priv { timer_pending = false } })
    fires :
        s.handler ≡ out
        → s.priv.timer_pending ≡ true
        → s.priv.timer_running ≡ true
        → Step s (record s { priv = record s.priv { timer_pending = false }; handler = passed })
    serves :
        s.handler ≡ passed
        → Step s (record s {
          priv = (serve port s.priv s.hw).0;
          hw = (serve port s.priv s.hw).1;
          handler = arming;
        })
    returns : s.handler ≡ arming → Step s (record s { priv = mod_timer s.priv; handler = out })

  -- Any number of steps.
  pub data Steps (s : System H) : System H → Type 0 where
    none_yet : Steps s s
    later : {t u : System H} → Steps s t → Step t u → Steps s u

  -- A module with the timer set up and not running, and no user in a command.
  abbrev pub Begins : System H → Type 0
  Begins s =
      (s.priv.timer_running ≡ false)
      × (s.priv.timer_pending ≡ false)
      × ((i : ℕ) → s.user i ≡ free)
      × (s.handler ≡ out)

  -- A step of the timer, or of the user `i`.
  abbrev pub ByUser : ℕ → {s t : System H} → Step s t → Type 0
  ByUser i (begin_start j h) = i ≡ j
  ByUser i (end_start j h) = i ≡ j
  ByUser i (begin_stop j h) = i ≡ j
  ByUser i (end_stop j h o) = i ≡ j
  ByUser i (ignored o p r) = Unit
  ByUser i (fires o p r) = Unit
  ByUser i (serves p) = Unit
  ByUser i (returns p) = Unit

  abbrev pub OneUser : ℕ → {s t : System H} → Steps s t → Type 0
  OneUser i none_yet = Unit
  OneUser i (later r st) = OneUser i r × ByUser i st

  -- No step in it sets the timer for a `dev_watchdog_start`.
  abbrev pub NotStarted : {s t : System H} → Steps s t → Type 0
  NotStarted none_yet = Unit
  NotStarted (later r (end_start j h)) = ⊥
  NotStarted (later r st) = NotStarted r

  -- The handler is not running and the timer will not call it.
  abbrev pub Quiet : System H → Type 0
  Quiet s = (s.priv.timer_pending ≡ false) × (s.handler ≡ out)

  -- What the only user can rely on.
  record Relied (i : ℕ) (s : System H) : Type 0 where
    halted : s.user i ≡ free → s.priv.timer_running ≡ false → Quiet s
    begun : s.user i ≡ starting → s.priv.timer_running ≡ true

  serve_runs : (p : Priv) (h : H) → (serve port p h).0.timer_running ≡ true
  unfolding serve
  serve_runs p h = ground arith

  Step-Relied : {s t : System H} (i : ℕ) (st : Step s t) → ByUser i st → Relied i s → Relied i t
  Step-Relied {s} i (begin_start j h) own inv = record { halted = λ f r. cc r; begun = λ b. refl }
  Step-Relied {s} i (end_start j h) own inv = record {
    halted = λ f r. cc (inv.begun (ground arith), r);
    begun = λ b. ground arith;
  }
  Step-Relied {s} i (begin_stop j h) own inv = record {
    halted = λ f r. ground arith;
    begun = λ b. ground arith;
  }
  Step-Relied {s} i (end_stop j h o) own inv = record {
    halted = λ f r. (refl, o);
    begun = λ b. ground arith;
  }
  Step-Relied {s} i (ignored o p n) own inv = record {
    halted = λ f r. (refl, o);
    begun = λ b. inv.begun b;
  }
  Step-Relied {s} i (fires o p n) own inv = record {
    halted = λ f r. absurd (cc (n, r));
    begun = λ b. n;
  }
  Step-Relied {s} i (serves a) own inv = record {
    halted = λ f r. absurd (cc (serve_runs s.priv s.hw, r));
    begun = λ b. serve_runs s.priv s.hw;
  }
  Step-Relied {s} i (returns a) own inv = record {
    halted = λ f r. absurd (cc (a, (inv.halted f r).1));
    begun = λ b. inv.begun b;
  }

  Steps-Relied : {s t : System H} (i : ℕ) → Begins s → (r : Steps s t) → OneUser i r → Relied i t
  Steps-Relied i b none_yet one = record {
    halted = λ f r. (b.1, b.3);
    begun = λ f. absurd (cc (b.2 i, f));
  }
  Steps-Relied i b (later r st) one = Step-Relied i st one.1 (Steps-Relied i b r one.0)

  -- With one user, from a module whose timer is set up and not running, whatever the interleaving of
  -- the user's commands with the handler: when the user is in no command and `timer_running` is
  -- clear, as after a `dev_watchdog_stop`, no timer is pending and no handler is about to kick.
  pub stopped-Quiet :
      {s t : System H} (i : ℕ)
      → Begins s
      → (r : Steps s t) → OneUser i r
      → t.user i ≡ free
      → t.priv.timer_running ≡ false
      → Quiet t
  stopped-Quiet i b r one f e = (Steps-Relied i b r one).halted f e

  -- Two users are enough to leave a timer pending with the flag clear: the second one stops the timer
  -- between the two statements of the start of the first.
  start_race :
      (s : System H)
      → s.user 0 ≡ free
      → s.user 1 ≡ free
      → s.handler ≡ out
      → (t : System H) × Steps s t
        × (t.user 0 ≡ free)
        × (t.user 1 ≡ free)
        × (t.priv.timer_running ≡ false)
        × (t.priv.timer_pending ≡ true)
  start_race s f g o = (
    _,
    later (later (later (later none_yet (begin_start 0 f)) (begin_stop 1 g)) (end_stop 1 refl o))
        (end_start 0 refl),
    refl,
    refl,
    refl,
    refl,
  )
