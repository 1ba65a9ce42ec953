-- ===== src/Watchdog/Setup/Balance.antt =====
-- What a probe of the watchdog holds when it returns, and what remove gives back.
use linux_device_driver.Base.{
  ℕ, suc, ◌≡◌, ◌≢◌, refl, ap, sym, ◌∙◌, ◌⊎◌, inl, inr, Bool, true, false, Bool-cases, Option, none,
  some, List, ◌∷◌, arith, ℤ, pos, ltb_ℤ, if◌then◌else◌,
}
use linux_device_driver.Base.Errno.{einval, eio}
use linux_device_driver.Register.{Port}
use linux_device_driver.Watchdog.{Priv, dev_watchdog_stop, dev_watchdog_read_enable}
use linux_device_driver.Watchdog.Setup.{
  Held, Answers, drop_misc, drop_map, destroy_workqueue, dev_watchdog_remove, read_props, fail,
  add_queue, add_misc, dev_watchdog_probe,
}

-- The driver holds nothing.
abbrev pub Fresh : Priv → Type 0
Fresh p = (p.reg_base ≡ none) × (p.workqueue ≡ none) × (p.misc_registered ≡ false)

abbrev pub Same : Held → Held → Type 0
Same k k' = (k'.maps ≡ k.maps) × (k'.misc ≡ k.misc) × (k'.queues ≡ k.queues)

-- Everything has been given back, or the driver holds a mapping, the misc device and a queue, and
-- a remove gives them back.
abbrev pub Balanced : Held → ℤ → Priv → Held → Type 0
Balanced k ret p' k' =
    ((p'.reg_base ≡ none) × (p'.misc_registered ≡ false) × (p'.timer_running ≡ false) × Same k k')
    ⊎ ((ret ≡ pos 0)
        × (p'.misc_registered ≡ true)
        × (k'.maps ≡ suc k.maps)
        × (k'.misc ≡ true)
        × ((q : ℕ) × (p'.workqueue ≡ some q) × (k'.queues ≡ q ∷ k.queues))
        × ((p'' : Priv) × (k'' : Held) × (dev_watchdog_remove p' k' ≡ some (p'', k''))
            × Same k k''))

pub record Result {H : Type 0} (k : Held) (r : Option (ℤ × Priv × Held × H)) : Type 0 where
  pub ret : ℤ
  pub priv : Priv
  pub held : Held
  pub hw : H
  pub returns : r ≡ some (ret, priv, held, hw)
  pub balanced : Balanced k ret priv held

abbrev down : Priv → Held → Priv × Held
down p k = let (p', k') = drop_misc (dev_watchdog_stop p) k in drop_map p'.reg_base p' k'

remove_down : (p : Priv) (k : Held) → p.workqueue ≡ none → dev_watchdog_remove p k ≡ some (down p k)
unfolding dev_watchdog_remove
remove_down p k none_yet = rw none_yet

down_clean :
    (p : Priv) (k k0 : Held)
    → (p.reg_base ≡ none) × (k.maps ≡ k0.maps) ⊎ (p.reg_base ≢ none) × (k.maps ≡ suc k0.maps)
    → (p.misc_registered ≡ true) ⊎ (p.misc_registered ≡ false) × (k.misc ≡ false)
    → k.queues ≡ k0.queues
    → k0.misc ≡ false
    → let (p', k') = down p k in
      (p'.reg_base ≡ none) × (p'.misc_registered ≡ false) × (p'.timer_running ≡ false) × Same k0 k'
unfolding dev_watchdog_stop
down_clean p k k0 map misc queues quiet = ground arith

module _ {H : Type 0} (port : Port H) (a : Answers) (k0 : Held) (quiet : k0.misc ≡ false) where
  fail-Result :
      (ret : ℤ) (p : Priv) (k : Held) (h : H)
      → p.workqueue ≡ none
      → (p.reg_base ≡ none) × (k.maps ≡ k0.maps) ⊎ (p.reg_base ≢ none) × (k.maps ≡ suc k0.maps)
      → (p.misc_registered ≡ true) ⊎ (p.misc_registered ≡ false) × (k.misc ≡ false)
      → k.queues ≡ k0.queues
      → Result k0 (fail port a ret p k h)
  unfolding fail
  fail-Result ret p k h no_queue map misc queues = record {
    ret = ret;
    priv = (down p k).0;
    held = (down p k).1;
    hw = h;
    returns = rw (remove_down p k no_queue) refl;
    balanced = inl (down_clean p k k0 map misc queues quiet);
  }

  head_destroyed : (q : ℕ) (qs : List ℕ) → destroy_workqueue q (q ∷ qs) ≡ some qs
  unfolding destroy_workqueue
  head_destroyed q qs = ground arith

  read_enable_keeps :
      (p : Priv) (h : H)
      → let p' = (dev_watchdog_read_enable port p h).0 in
        (p'.reg_base ≡ p.reg_base)
        × (p'.workqueue ≡ p.workqueue)
        × (p'.misc_registered ≡ p.misc_registered)
  unfolding dev_watchdog_read_enable
  read_enable_keeps p h = ground arith

  remove_all :
      (p : Priv) (k : Held) (q : ℕ) (qs : List ℕ)
      → p.workqueue ≡ some q
      → k.queues ≡ q ∷ qs
      → dev_watchdog_remove p k ≡ some (down p (record k { queues = qs }))
  unfolding dev_watchdog_remove
  remove_all p k q qs e f = rw (e, f, head_destroyed q qs) refl

  add_queue-none :
      (ret : ℤ) (p : Priv) (k : Held) (h : H)
      → a.workqueue ≡ none
      → add_queue port a ret p k h ≡ fail port a ret (record p { workqueue = none }) k h
  unfolding add_queue fail
  add_queue-none ret p k h e = rw e refl

  add_queue-some :
      (ret : ℤ) (p : Priv) (k : Held) (h : H) (q : ℕ)
      → a.workqueue ≡ some q
      → let r =
          dev_watchdog_read_enable port (record p { workqueue = some q; work_pending = false }) h in
        add_queue port a ret p k h ≡ some (pos 0, r.0, record k { queues = q ∷ k.queues }, r.1)
  unfolding add_queue
  add_queue-some ret p k h q e = rw e refl

  add_queue-Result :
      (p : Priv) (k : Held) (h : H)
      → p.reg_base ≢ none
      → p.misc_registered ≡ true
      → (k.maps ≡ suc k0.maps) × (k.misc ≡ true) × (k.queues ≡ k0.queues)
      → (ret : ℤ) → Result k0 (add_queue port a ret p k h)
  add_queue-Result p k h mapped reg (maps, misc, queues) ret = queue a.workqueue refl
    where
      queue : (w : Option ℕ) → a.workqueue ≡ w → Result k0 (add_queue port a ret p k h)
      queue none e = rw (add_queue-none ret p k h e) (
          fail-Result ret (record p { workqueue = none }) k h refl (inr (mapped, maps)) (inl reg)
            queues)
      queue (some q) e =
          let ready : Priv = record p { workqueue = some q; work_pending = false } in
          let read : Priv = (dev_watchdog_read_enable port ready h).0 in
          let (base, wq, m) = read_enable_keeps ready h in
          let full : Held = record k { queues = q ∷ k.queues } in
          let gone : Held = record full { queues = k.queues } in
          let (_, _, _, same) =
            down_clean read gone k0 (inr ((λ z. mapped (sym base ∙ z)), maps)) (inl (m ∙ reg))
              queues quiet in
          record {
            ret = pos 0;
            priv = read;
            held = full;
            hw = (dev_watchdog_read_enable port ready h).1;
            returns = add_queue-some ret p k h q e;
            balanced = inr (
              refl,
              m ∙ reg,
              maps,
              misc,
              (q, wq, ap (λ qs. q ∷ qs) queues),
              (
                (down read gone).0,
                (down read gone).1,
                remove_all read full q k.queues wq refl,
                same,
              ),
            );
          }

  add_misc-Result :
      (p : Priv) (k : Held) (h : H)
      → p.reg_base ≢ none
      → p.workqueue ≡ none
      → p.misc_registered ≡ false
      → (k.maps ≡ suc k0.maps) × (k.misc ≡ k0.misc) × (k.queues ≡ k0.queues)
      → Result k0 (add_misc port a p k h)
  unfolding add_misc
  add_misc-Result p k h mapped no_queue unreg (maps, misc, queues) =
      elim (Bool-cases (ltb_ℤ a.misc_register (pos 0))) [
        | inl e ↦ rw e (
            fail-Result a.misc_register p k h no_queue (inr (mapped, maps))
              (inr (unreg, misc ∙ quiet)) queues)
        | inr e ↦ rw e (
            add_queue-Result
              (record p {
                misc_registered = true;
                use_workqueue = if a.use_workqueue then true else p.use_workqueue;
              })
              (record k { misc = true }) h mapped refl (maps, refl, queues) a.misc_register)
      ]

read_props_keep :
    (a : Answers) (p : Priv)
    → let p' = (read_props a p).1 in
      (p'.reg_base ≡ p.reg_base)
      × (p'.workqueue ≡ p.workqueue)
      × (p'.misc_registered ≡ p.misc_registered)
unfolding read_props
read_props_keep a p = ground arith

module _ {H : Type 0} (port : Port H) (a : Answers) (p : Priv) (k : Held) (h : H)
    (base : p.reg_base ≡ none) where
  probe_unmapped : a.iomap ≡ none → dev_watchdog_probe port a p k h ≡ fail port a eio p k h
  unfolding dev_watchdog_probe fail
  probe_unmapped e = rw (base, e) refl

  abbrev mapped : ℕ → Bool × Priv
  mapped b = read_props a (record p { reg_base = some b })

  abbrev more : Held
  more = record k { maps = suc k.maps }

  probe_mapped :
      (b : ℕ)
      → a.iomap ≡ some b
      → dev_watchdog_probe port a p k h ≡ (
          if (mapped b).0
          then add_misc port a (mapped b).1 more h
          else fail port a einval (mapped b).1 more h)
  unfolding dev_watchdog_probe
  probe_mapped b e = ground arith

-- A probe of a driver that holds nothing and has no pointer to a work queue, as when the module is
-- loaded, while its misc device is not registered, returns, whatever the kernel answers, and is all
-- or nothing: either every resource that it took has been given back, or the result is 0, the driver
-- holds a mapping, the misc device and a new live queue, and a remove gives all of them back.
pub probe_balanced :
    {H : Type 0} (port : Port H) (a : Answers) (p : Priv) (k : Held) (h : H)
    → Fresh p
    → k.misc ≡ false
    → Result k (dev_watchdog_probe port a p k h)
probe_balanced {H} port a p k h (base, wq, misc) quiet = by_map a.iomap refl
  where
    by_map : (m : Option ℕ) → a.iomap ≡ m → Result k (dev_watchdog_probe port a p k h)
    by_map none e =
        rw (probe_unmapped port a p k h base e)
          (fail-Result port a k quiet eio p k h wq (inl (base, refl)) (inr (misc, quiet)) refl)
    by_map (some b) e =
        let start : Priv = record p { reg_base = some b } in
        let (reg, queue, device) = read_props_keep a start in
        let there : (read_props a start).1.reg_base ≢ none = λ z. cc (reg, z) in
        elim (Bool-cases (read_props a start).0) [
          | inl ok ↦
              rw (probe_mapped port a p k h base b e, ok)
                (add_misc-Result port a k quiet (read_props a start).1
                  (record k { maps = suc k.maps }) h there (queue ∙ wq) (device ∙ misc)
                  (refl, refl, refl))
          | inr bad ↦
              rw (probe_mapped port a p k h base b e, bad)
                (fail-Result port a k quiet einval (read_props a start).1
                  (record k { maps = suc k.maps }) h (queue ∙ wq) (inr (there, refl))
                  (inr (device ∙ misc, quiet)) refl)
        ]
