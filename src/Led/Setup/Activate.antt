-- ===== src/Led/Setup/Activate.antt =====
-- led/led_support.c, led/led_dev.c: dev_leds_init, led_dev_activate and led_dev_deactivate. A setting
-- that is queued is made when the work queue is destroyed, at the latest; the model makes it then.
-- led_classdev_unregister is the kernel's: it switches the LED off by cdev.brightness_set, and removes
-- it.
pub mod Balance
mod Tests
use linux_device_driver.Base.{
  ℕ, zero, suc, ◌-◌, Bool, true, false, not, Option, none, some, List, [], ◌∷◌, ◌++◌, map,
  get_elem?, if◌then◌else◌, ℤ, pos, ltb_ℤ,
}
use linux_device_driver.Base.Maybe.{◌>>=◌}
use linux_device_driver.Base.Errno.{enodev, enomem, eio, efault}
use linux_device_driver.Register.{Port}
use linux_device_driver.Led.{DevLed, led_off, brightness_set, enb_reg_set}
use linux_device_driver.Led.Setup.{Node, read_leds, LedPriv, World, Kernel, removed}

module _ {H : Type 0} (port : Port H) where
  -- `dev_led_set_work` for a work that is queued
  pub set_work : List DevLed → ℕ × ℕ → H → H
  set_work leds (i, value) h = elim (get_elem? leds i) [
    | none ↦ h
    | some led ↦ brightness_set port led value h
  ]

  abbrev pub run_works : List DevLed → List (ℕ × ℕ) → H → H
  run_works leds [] h = h
  run_works leds (x ∷ xs) h = run_works leds xs (set_work leds x h)

  -- destroy_workqueue, where there is one
  abbrev pub drop_queue : LedPriv → World H → World H
  drop_queue p w =
      if p.workqueue
      then record w { queues = w.queues - 1; works = []; hw = run_works p.leds w.works w.hw }
      else w

  abbrev pub drop_map : Option ℕ → World H → World H
  drop_map none w = w
  drop_map (some _) w = record w { maps = w.maps - 1 }

abbrev pub at_base : ℕ → DevLed → DevLed
at_base base led = record led { reg_base = base }

module _ {H : Type 0} (port : Port H) (k : Kernel) where
  -- `cdev.brightness_set` of the LED at the place `i`: `dev_leds_brightness_set` where it is deferred,
  -- once the driver's data are there
  pub set_led : ℕ → DevLed → ℕ → World H → World H
  set_led i led value w =
      if led.deferred
      then (if k.work_zalloc i then record w { works = w.works ++ (i, value) ∷ [] } else w)
      else record w { hw = brightness_set port led value w.hw }

  -- The same with LED_OFF; `none`: `dev_leds_brightness_set` follows the NULL of the driver's data.
  pub switch_off : ℕ → DevLed → World H → Option (World H)
  switch_off i led w =
      if led.deferred
      then (elim w.drvdata [ none ↦ none | some p ↦ some (set_led i led led_off w) ])
      else some (set_led i led led_off w)

  -- led_classdev_unregister
  pub unregister : ℕ → DevLed → World H → Option (World H)
  unregister i led w = switch_off i led w >>= λ w'.
      removed i w'.registered >>= λ xs. some (record w' { registered = xs })

  -- `while (--i >= 0)`, on the array `leds`
  pub unregister_down : List DevLed → ℕ → World H → Option (World H)
  unregister_down leds zero w = some w
  unregister_down leds (suc i) w =
      get_elem? leds i >>= λ led. unregister i led w >>= λ w'. unregister_down leds i w'

  -- `dev_leds_cleanup`, from the LED `i` on
  pub cleanup_from : ℕ → List DevLed → World H → Option (World H)
  cleanup_from i [] w = some w
  cleanup_from i (led ∷ leds) w = unregister i led w >>= λ w'. cleanup_from (suc i) leds w'

  -- `led_dev_deactivate`, once the driver's data are known
  pub deactivate_priv : LedPriv → World H → Option (ℤ × World H)
  deactivate_priv p w =
      cleanup_from 0 p.leds (record (drop_queue port p w) { drvdata = none }) >>= λ w'.
      some (pos 0, drop_map port p.reg_base w')

  -- `led_dev_deactivate`
  pub led_dev_deactivate : World H → Option (ℤ × World H)
  led_dev_deactivate w = elim w.drvdata [ none ↦ some (enodev, w) | some p ↦ deactivate_priv p w ]

  -- `dev_leds_init` on the array `all`, from the LED `i` on; `ret` is what the last registration has returned.
  pub init_from : List DevLed → ℤ → ℕ → List DevLed → World H → Option (ℤ × World H)
  init_from all ret i [] w = some (ret, w)
  init_from all ret i (led ∷ leds) w =
      let w' : World H =
        set_led i led led.brightness (record w { registered = i ∷ w.registered }) in
      let rest : Option (ℤ × World H) =
        init_from all (k.register i) (suc i) leds (record w' { hw = enb_reg_set port led w'.hw }) in
      if ltb_ℤ (k.register i) (pos 0)
      then (unregister_down all i w >>= λ v. some (k.register i, v))
      else rest

  -- The label `err`
  abbrev pub fail : ℤ → World H → Option (ℤ × World H)
  fail ret w = led_dev_deactivate w >>= λ r. some (ret, r.1)

  -- From create_singlethread_workqueue on, with the LEDs that have been read. dev_leds_init stores the
  -- address of the registers in each of them.
  pub start_leds : ℕ → LedPriv → World H → Option (ℤ × World H)
  start_leds base p w =
      if k.workqueue
      then (let leds : List DevLed = map (at_base base) p.leds in
          let w' : World H = record w {
            drvdata = some (record p { workqueue = true; leds = leds });
            queues = suc w.queues;
          } in
          init_from leds (pos 0) 0 leds w' >>= λ r.
          if ltb_ℤ r.0 (pos 0) then fail r.0 r.1 else some (pos 0, r.1))
      else fail enodev (record w { drvdata = some p })

  -- From the loop over the nodes on
  pub add_leds : ℕ → List Node → World H → Option (ℤ × World H)
  add_leds base nodes w =
      let r : Bool × List DevLed = read_leds k.use_workqueue nodes in
      let p : LedPriv = record {
        workqueue = false;
        use_workqueue = k.use_workqueue;
        reg_base = some base;
        leds = r.1;
      } in
      if r.0 then start_leds base p w else fail efault (record w { drvdata = some p })

  -- `led_dev_activate`
  pub led_dev_activate : List Node → World H → Option (ℤ × World H)
  led_dev_activate [] w = some (pos 0, w)
  led_dev_activate (n ∷ ns) w =
      if not k.parent then fail enodev w else if not k.zalloc then fail enomem w else elim k.iomap [
        | none ↦ fail eio (record w {
          drvdata =
              some
                (record { workqueue = false; use_workqueue = false; reg_base = none; leds = [] });
        })
        | some base ↦ add_leds base (n ∷ ns) (record w { maps = suc w.maps })
      ]
