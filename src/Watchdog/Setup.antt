-- ===== src/Watchdog/Setup.antt =====
-- watchdog/watchdog.c: probe and remove, with the resources that they take and give back.
pub mod Balance
mod Tests
use linux_device_driver.Base.{
  ℕ, zero, suc, ◌+◌, ◌-◌, ◌≡◌, ◌≢◌, refl, Bool, true, false, not, Option, none, some, List, [], ◌∷◌,
  if◌then◌else◌, ◌==◌, arith, ℤ, pos, ltb_ℤ,
}
use linux_device_driver.Base.Maybe.{◌>>=◌}
use linux_device_driver.Base.Errno.{einval, eio}
use linux_device_driver.Register.{Port}
use linux_device_driver.Watchdog.{Priv, dev_watchdog_stop, dev_watchdog_read_enable, wd_prop_none}

-- What the driver holds of the kernel: mappings, the misc device, and its live work queues.
pub record Held : Type 0 where
  pub maps : ℕ
  pub misc : Bool
  pub queues : List ℕ

-- What the kernel answers to a probe: of_iomap, the four properties with their length in bytes,
-- misc_register, whether use-workqueue is there, and create_singlethread_workqueue.
pub record Answers : Type 0 where
  pub iomap : Option ℕ
  pub kick_offset : Option (ℕ × ℤ)
  pub kick_value : Option (ℕ × ℤ)
  pub enable_offset : Option (ℕ × ℤ)
  pub enable_value : Option (ℕ × ℤ)
  pub misc_register : ℤ
  pub use_workqueue : Bool
  pub workqueue : Option ℕ

-- The queue `q` is destroyed; `none` if it does not live.
pub destroy_workqueue : ℕ → List ℕ → Option (List ℕ)
destroy_workqueue q [] = none
destroy_workqueue q (x ∷ xs) =
    let rest = destroy_workqueue q xs in if x == q then some xs else (rest >>= λ ys. some (x ∷ ys))

abbrev pub drop_queue : Option ℕ → Held → Option Held
drop_queue none k = some k
drop_queue (some q) k = destroy_workqueue q k.queues >>= λ qs. some (record k { queues = qs })

abbrev pub drop_misc : Priv → Held → Priv × Held
drop_misc p k =
    if p.misc_registered
    then (record p { misc_registered = false }, record k { misc = false })
    else (p, k)

abbrev pub drop_map : Option ℕ → Priv → Held → Priv × Held
drop_map none p k = (p, k)
drop_map (some _) p k = (record p { reg_base = none }, record k { maps = k.maps - 1 })

-- `none`: a work queue that is gone is destroyed again.
pub dev_watchdog_remove : Priv → Held → Option (Priv × Held)
dev_watchdog_remove p k = drop_queue p.workqueue k >>= λ k'.
    let (p', k'') = drop_misc (dev_watchdog_stop p) k' in some (drop_map p'.reg_base p' k'')

-- One round of the loop over `watchdog_props`: the value, or an error.
pub read_prop : Bool → Option (ℕ × ℤ) → Option ℤ
read_prop mandatory none = if mandatory then none else some wd_prop_none
read_prop mandatory (some (len, v)) = if len == 4 then some v else none

-- The loop: whether it has succeeded, and what it has stored by then.
pub read_props : Answers → Priv → Bool × Priv
read_props a p = elim (read_prop true a.kick_offset) [
  | none ↦ (false, p)
  | some v ↦
      let p : Priv = record p { kick_offset = v } in
      elim (read_prop true a.kick_value) [
        | none ↦ (false, p)
        | some v ↦
            let p : Priv = record p { kick_value = v } in
            elim (read_prop false a.enable_offset) [
              | none ↦ (false, p)
              | some v ↦
                  let p : Priv = record p { enable_offset = v } in
                  elim (read_prop false a.enable_value) [
                    | none ↦ (false, p)
                    | some v ↦ (true, record p { enable_value = v })
                  ]
            ]
      ]
]

module _ {H : Type 0} (port : Port H) (a : Answers) where
  -- The label `err`.
  fail : ℤ → Priv → Held → H → Option (ℤ × Priv × Held × H)
  fail ret p k h = dev_watchdog_remove p k >>= λ r. some (ret, r.0, r.1, h)

  -- From create_singlethread_workqueue on; `ret` is what misc_register has returned.
  add_queue : ℤ → Priv → Held → H → Option (ℤ × Priv × Held × H)
  add_queue ret p k h = elim a.workqueue [
    | none ↦ fail ret (record p { workqueue = none }) k h
    | some q ↦
        let (p', h') =
          dev_watchdog_read_enable port (record p { workqueue = some q; work_pending = false }) h in
        some (pos 0, p', record k { queues = q ∷ k.queues }, h')
  ]

  -- From misc_register on.
  add_misc : Priv → Held → H → Option (ℤ × Priv × Held × H)
  add_misc p k h =
      if ltb_ℤ a.misc_register (pos 0)
      then fail a.misc_register p k h
      else add_queue a.misc_register
          (record p {
            misc_registered = true;
            use_workqueue = if a.use_workqueue then true else p.use_workqueue;
          })
          (record k { misc = true }) h

  pub dev_watchdog_probe : Priv → Held → H → Option (ℤ × Priv × Held × H)
  dev_watchdog_probe p k h = elim p.reg_base [
    | some _ ↦ some (eio, p, k, h)
    | none ↦ elim a.iomap [
      | none ↦ fail eio p k h
      | some base ↦
          let (ok, p') = read_props a (record p { reg_base = some base }) in
          let k' : Held = record k { maps = suc k.maps } in
          if ok then add_misc p' k' h else fail einval p' k' h
    ]
  ]
