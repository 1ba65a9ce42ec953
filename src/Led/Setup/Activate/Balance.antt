-- ===== src/Led/Setup/Activate/Balance.antt =====
-- led/led_dev.c, led/led_support.c: what a set-up that succeeds takes, its removal gives back.
use linux_device_driver.Base.{
  ℕ, suc, ◌-◌, ◌≡◌, refl, ap, ◌∙◌, true, false, Bool-cases, inl, inr, Option, none, some, List, [],
  ◌∷◌, length, map, if◌then◌else◌, ℤ, pos, ltb_ℤ, arith,
}
use linux_device_driver.Base.Maybe.{◌>>=◌}
use linux_device_driver.Register.{Port}
use linux_device_driver.Led.{DevLed, led_off, brightness_set, enb_reg_set}
use linux_device_driver.Led.Setup.{Node, read_leds, LedPriv, World, Kernel}
use linux_device_driver.Led.Setup.Activate.{
  drop_map, cleanup_from, unregister, switch_off, run_works, deactivate_priv, led_dev_deactivate,
  set_led, init_from, at_base, start_leds, add_leds, led_dev_activate,
}
use linux_device_driver.Led.Setup.Places.{pushed, removed_first}

length-based : (base : ℕ) (leds : List DevLed) → length (map (at_base base) leds) ≡ length leds
length-based base [] = refl
length-based base (led ∷ leds) = ap suc (length-based base leds)

-- No LED leaves its settings to the work queue.
abbrev pub AllDirect : List DevLed → Type 0
AllDirect [] = Unit
AllDirect (led ∷ leds) = (led.deferred ≡ false) × AllDirect leds

AllDirect-based :
    (base : ℕ) (leds : List DevLed) → AllDirect leds → AllDirect (map (at_base base) leds)
AllDirect-based base [] h = tt
AllDirect-based base (led ∷ leds) h = (h.0, AllDirect-based base leds h.1)

module _ {H : Type 0} (port : Port H) (k : Kernel) where
  -- dev_leds_cleanup switches the LEDs off and removes them.
  cleaned :
      (i : ℕ) (leds : List DevLed) (acc : List ℕ) (w : World H)
      → AllDirect leds
      → (hw : H) × (cleanup_from port k i leds
            (record w { registered = pushed i (length leds) acc })
          ≡ some (record w { registered = acc; hw = hw }))
  unfolding cleanup_from unregister switch_off set_led brightness_set
  cleaned i [] acc w h = (w.hw, refl)
  cleaned i (led ∷ leds) acc w h =
      let w' : World H = record w { hw = brightness_set port led led_off w.hw } in
      let (hw, e) = cleaned (suc i) leds acc w' h.1 in
      (hw, rw (h.0, removed_first i (length leds) acc) e)

  set_led_form :
      (i : ℕ) (led : DevLed) (value : ℕ) (w : World H)
      → set_led port k i led value w ≡ record w {
        works = (set_led port k i led value w).works;
        hw = (set_led port k i led value w).hw;
      }
  unfolding set_led
  set_led_form i led value w = elim (Bool-cases led.deferred) [
    | inl e ↦ elim (Bool-cases (k.work_zalloc i)) [
      | inl a ↦ rw (e, a) refl
      | inr a ↦ rw (e, a) refl
    ]
    | inr e ↦ rw e refl
  ]

  -- The rest of a run of `init_from`, from a world that differs in its works and hardware.
  Ends : ℕ → List DevLed → Option (ℤ × World H) → World H → Type 0
  Ends i leds o w =
      (r : ℤ) × ((works : List (ℕ × ℕ)) × ((hw : H) × (o
            ≡ some (
              r,
              record w { registered = pushed i (length leds) w.registered; works = works; hw = hw },
            ))
          × (ltb_ℤ r (pos 0) ≡ false)))

  -- All registrations succeed.
  initialised :
      ((j : ℕ) → ltb_ℤ (k.register j) (pos 0) ≡ false)
      → (all : List DevLed) (ret : ℤ) (i : ℕ) (leds : List DevLed) (w : World H)
      → ltb_ℤ ret (pos 0) ≡ false
      → Ends i leds (init_from port k all ret i leds w) w
  unfolding init_from Ends
  initialised fine all ret i [] w h = (ret, (w.works, (w.hw, refl, h)))
  initialised fine all ret i (led ∷ leds) w h =
      let w' : World H =
        set_led port k i led led.brightness (record w { registered = i ∷ w.registered }) in
      let form = set_led_form i led led.brightness (record w { registered = i ∷ w.registered }) in
      let (r, (works, (hw, e, good))) =
        initialised fine all (k.register i) (suc i) leds
          (record w' { hw = enb_reg_set port led w'.hw }) (fine i) in
      (
        r,
        (
          works,
          (
            hw,
            rw (fine i) e
                ∙ ap
                    (λ v. some (
                      r,
                      record v {
                        registered = pushed (suc i) (length leds) v.registered;
                        works = works;
                        hw = hw;
                      },
                    ))
                    form,
            good,
          ),
        ),
      )

  abbrev read_priv : ℕ → List DevLed → LedPriv
  read_priv base leds = record {
    workqueue = false;
    use_workqueue = k.use_workqueue;
    reg_base = some base;
    leds = leds;
  }

  abbrev started_priv : ℕ → List DevLed → LedPriv
  started_priv base leds = record (read_priv base leds) {
    workqueue = true;
    leds = map (at_base base) leds;
  }

  activated :
      (base : ℕ) (n : Node) (ns : List Node) (leds : List DevLed) (w : World H)
      → k.parent ≡ true
      → k.zalloc ≡ true
      → k.iomap ≡ some base
      → read_leds k.use_workqueue (n ∷ ns) ≡ (true, leds)
      → led_dev_activate port k (n ∷ ns) w
        ≡ start_leds port k base (read_priv base leds) (record w { maps = suc w.maps })
  unfolding led_dev_activate add_leds
  activated base n ns leds w fits alloc mapped nodes = simp (fits, alloc, mapped, nodes) refl

  started :
      (base : ℕ) (leds : List DevLed) (w v : World H) (r : ℤ)
      → k.workqueue ≡ true
      → init_from port k
          (map (at_base base) leds)
          (pos 0)
          0
          (map (at_base base) leds)
          (record w { drvdata = some (started_priv base leds); queues = suc w.queues })
        ≡ some (r, v)
      → ltb_ℤ r (pos 0) ≡ false
      → start_leds port k base (read_priv base leds) w ≡ some (pos 0, v)
  unfolding start_leds init_from
  started base leds w v r queue e good = rw (queue, if◌then◌else◌, e, ◌>>=◌, good) refl

  -- The removal of LEDs that are registered on top of `acc`.
  stopped :
      (base : ℕ) (leds : List DevLed) (acc : List ℕ) (v : World H)
      → AllDirect leds
      → v.drvdata ≡ some (started_priv base leds)
      → v.registered ≡ pushed 0 (length (map (at_base base) leds)) acc
      → (hw : H) × (led_dev_deactivate port k v
          ≡ some (
            pos 0,
            record v {
              drvdata = none;
              registered = acc;
              maps = v.maps - 1;
              queues = v.queues - 1;
              works = [];
              hw = hw;
            },
          ))
  unfolding led_dev_deactivate deactivate_priv
  stopped base leds acc v direct data_ regs =
      let based : List DevLed = map (at_base base) leds in
      let gone : World H = record v {
        drvdata = none;
        queues = v.queues - 1;
        works = [];
        hw = run_works port based v.works v.hw;
      } in
      let (hw, e) = cleaned 0 based acc gone (AllDirect-based base leds direct) in
      (
        hw,
        rw data_ (
            ap
              (λ q. cleanup_from port k 0 based (record gone { registered = q }) >>= λ w'.
                some (pos 0, drop_map port (some base) w'))
              regs
            ∙ ap (λ o. o >>= λ w'. some (pos 0, drop_map port (some base) w')) e),
      )

  -- After a set-up and its removal.
  abbrev pub GivenBack : World H → World H → Type 0
  GivenBack w v =
      (v.drvdata ≡ none)
      × (v.registered ≡ w.registered)
      × (v.maps ≡ w.maps)
      × (v.queues ≡ w.queues)
      × (v.works ≡ [])

  -- Where the parent node fits, every call succeeds, the properties of all child nodes, at least one,
  -- are valid, and no LED leaves its settings to the work queue: led_dev_activate returns 0 and has registered the LEDs that it has read, each once
  -- and in order; led_dev_deactivate then returns 0 too, where led_classdev_unregister switches each
  -- LED off by its callback; the LEDs, the mapping and the work queue are given back, no work is
  -- left, and the device has no data.
  pub activate_balanced :
      (base : ℕ) (n : Node) (ns : List Node) (leds : List DevLed) (w : World H)
      → k.parent ≡ true
      → k.zalloc ≡ true
      → k.iomap ≡ some base
      → k.workqueue ≡ true
      → ((j : ℕ) → ltb_ℤ (k.register j) (pos 0) ≡ false)
      → read_leds k.use_workqueue (n ∷ ns) ≡ (true, leds)
      → AllDirect leds
      → (v : World H) × ((u : World H) × (led_dev_activate port k (n ∷ ns) w ≡ some (pos 0, v))
          × (v.registered ≡ pushed 0 (length leds) w.registered)
          × (led_dev_deactivate port k v ≡ some (pos 0, u))
          × GivenBack w u)
  unfolding Ends
  activate_balanced base n ns leds w fits alloc mapped queue fine nodes direct =
      let based : List DevLed = map (at_base base) leds in
      let w1 : World H = record w {
        drvdata = some (started_priv base leds);
        maps = suc w.maps;
        queues = suc w.queues;
      } in
      let (r, (works, (hw, e, good))) = initialised fine based (pos 0) 0 based w1 refl in
      let v : World H = record w1 {
        registered = pushed 0 (length based) w.registered;
        works = works;
        hw = hw;
      } in
      let same : length based ≡ length leds = length-based base leds in
      let (off, stops) = stopped base leds w.registered v direct refl refl in
      (
        v,
        (
          _,
          activated base n ns leds w fits alloc mapped nodes
              ∙ started base leds (record w { maps = suc w.maps }) v r queue e good,
          ap (λ j. pushed 0 j w.registered) same,
          stops,
          (refl, refl, omega arith, omega arith, refl),
        ),
      )
