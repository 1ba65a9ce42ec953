-- ===== src/Gfifo/Threads/Invariant.antt =====
-- What holds of the threads of `Gfifo.Threads` in every reachable state.
use linux_device_driver.Base.{
  ℕ, ◌<◌, ◌^◌, ◌≡◌, ◌≢◌, ◌++◌, ◌||◌, refl, ◌∙◌, Bool, true, false, Option, none, some, List, [],
  arith, ℕ_discrete, length-replicate,
}
use linux_device_driver.Base.Kernel.{Uaccess, IsUaccess, Memcpy, IsMemcpy}
use linux_device_driver.Gfifo.{Dev, Event}
use linux_device_driver.Gfifo.Spec.{contents}
use linux_device_driver.Gfifo.Valid.{IsValid}
use linux_device_driver.Gfifo.Keeps.{KeepsSize}
use linux_device_driver.Gfifo.Threads.{
  Call, Pc, idle, locking, testing, sleeping, woken, moving, System, update, blocked, wake, perform,
  Effect, Step, enter, lock, give_up, sleep, signal, interrupted, relock, pass, move, init, Reach,
  start, later,
}
use linux_device_driver.Gfifo.Threads.History.{replay, replay-append}
use linux_device_driver.Gfifo.Threads.Effects.{Performed, perform-Performed}

-- Whether the thread holds the mutex.
abbrev pub holds : {Buf : Type 0} → Pc Buf → Bool
holds (testing _) = true
holds (moving _) = true
holds _ = false

-- What a thread relies on: past its loop it may transfer; asleep it has to wait.
abbrev pub Relies : {Buf : Type 0} → ℕ → Dev → Pc Buf → Type 0
Relies gsize dev (moving c) = blocked gsize dev c ≡ false
Relies gsize dev (sleeping c) = blocked gsize dev c ≡ true
Relies gsize dev _ = Unit

pub record Inv {Buf : Type 0} (gsize : ℕ) (s : System Buf) : Type 0 where
  pub valid : IsValid gsize s.dev
  pub held : (i : ℕ) → holds (s.pc i) ≡ true → s.owner ≡ some i
  pub relied : (i : ℕ) → Relies gsize s.dev (s.pc i)
  pub legal : s.overlapped ≡ false → replay s.log [] ≡ some (contents s.dev)

holds-wake : {Buf : Type 0} (es : List Event) (p : Pc Buf) → holds (wake es p) ≡ holds p
holds-wake es (sleeping c) = ground arith
holds-wake es idle = refl
holds-wake es (locking c) = refl
holds-wake es (testing c) = refl
holds-wake es (woken c) = refl
holds-wake es (moving c) = refl

-- A thread that does not hold the mutex still relies on something true after a transfer.
Relies-wake :
    {Buf : Type 0} {gsize : ℕ} {dev : Dev} {e : Effect} (p : Pc Buf)
    → Performed Buf gsize dev e
    → holds p ≡ false
    → Relies gsize dev p
    → Relies gsize e.dev (wake e.events p)
Relies-wake (sleeping c) f h r = ground (arith, f.wakes_up c r)
Relies-wake (moving c) f h r = cc
Relies-wake idle f h r = tt
Relies-wake (locking c) f h r = tt
Relies-wake (testing c) f h r = tt
Relies-wake (woken c) f h r = tt

-- Thread `i` goes on to `p` and the mutex to `o`, with the device left alone.
moves :
    {Buf : Type 0} {gsize : ℕ} {s : System Buf}
    → Inv gsize s
    → (i : ℕ) (o : Option ℕ) (p : Pc Buf) → (holds p ≡ true → o ≡ some i)
    → ((j : ℕ) → i ≢ j → holds (s.pc j) ≡ true → o ≡ some j)
    → Relies gsize s.dev p
    → Inv gsize (record s { owner = o; pc = update s.pc i p })
moves inv i o p mine others r = record {
  valid = inv.valid;
  held = λ j h. ground (arith, others j);
  relied = λ j. ground (arith, inv.relied j);
  legal = inv.legal;
}

module _ {Buf : Type 0} (ua : Uaccess Buf) (cpy : Memcpy) (gsize : ℕ) (law : IsUaccess ua)
    (copies : IsMemcpy cpy) (keeps : KeepsSize cpy) where
  move-Inv :
      {s : System Buf} (i : ℕ) {c : Call Buf}
      → s.pc i ≡ moving c
      → Inv gsize s
      → Inv gsize (record s {
        dev = (perform ua cpy gsize c s.dev).dev;
        owner = none;
        pc = update (λ j. wake (perform ua cpy gsize c s.dev).events (s.pc j)) i idle;
        log = s.log ++ (perform ua cpy gsize c s.dev).done;
        overlapped = s.overlapped || (perform ua cpy gsize c s.dev).overlap;
      })
  move-Inv {s} i {c} at inv = record {
    valid = f.valid;
    held = λ j h. ground (arith, holds-wake e.events (s.pc j), inv.held i, inv.held j);
    relied = λ j. others j;
    legal = λ apart.
        replay-append s.log e.done [] (contents s.dev) (inv.legal (ground arith))
        ∙ f.legal (ground arith);
  }
    where
      e : Effect
      e = perform ua cpy gsize c s.dev

      free : blocked gsize s.dev c ≡ false
      free = ground (arith, inv.relied i)

      f : Performed Buf gsize s.dev e
      f = perform-Performed ua cpy law copies keeps c inv.valid free

      others : (j : ℕ) → Relies gsize e.dev (update (λ k. wake e.events (s.pc k)) i idle j)
      others j = elim (ℕ_discrete i j) [
        | yes q ↦ ground arith
        | no q ↦
            let alone : holds (s.pc j) ≡ false = ground (arith, inv.held i, inv.held j) in
            let still : Relies gsize e.dev (wake e.events (s.pc j)) =
              Relies-wake (s.pc j) f alone (inv.relied j) in
            ground arith
      ]

  pub Step-Inv : {s t : System Buf} → Step ua cpy gsize s t → Inv gsize s → Inv gsize t
  Step-Inv {s} (enter i c at) inv =
      moves inv i s.owner (locking c) (λ h. cc) (λ j ne h. inv.held j h) tt
  Step-Inv {s} (lock i {c} at free) inv =
      moves inv i (some i) (testing c) (λ h. refl) (λ j ne h. cc (inv.held j h)) tt
  Step-Inv {s} (give_up i at b n) inv =
      moves inv i none idle (λ h. cc) (λ j ne h. ground (arith, inv.held j, inv.held i)) tt
  Step-Inv {s} (sleep i {c} at b n) inv =
      moves inv i none (sleeping c) (λ h. cc) (λ j ne h. ground (arith, inv.held j, inv.held i)) b
  Step-Inv {s} (signal i {c} at) inv =
      moves inv i s.owner (woken c) (λ h. cc) (λ j ne h. inv.held j h) tt
  Step-Inv {s} (interrupted i at) inv =
      moves inv i s.owner idle (λ h. cc) (λ j ne h. inv.held j h) tt
  Step-Inv {s} (relock i {c} at free) inv =
      moves inv i (some i) (testing c) (λ h. refl) (λ j ne h. cc (inv.held j h)) tt
  Step-Inv {s} (pass i {c} at b) inv =
      moves inv i s.owner (moving c) (λ h. ground (arith, inv.held i)) (λ j ne h. inv.held j h) b
  Step-Inv (move i at) inv = move-Inv i at inv

  Inv-init : gsize < 2 ^ 32 → Inv {Buf = Buf} gsize (init gsize)
  Inv-init small = record {
    valid = omega (arith, length-replicate {A = ℕ} gsize 0);
    held = λ i h. cc;
    relied = λ i. tt;
    legal = λ apart. refl;
  }

  pub Reach-Inv : {s : System Buf} → gsize < 2 ^ 32 → Reach ua cpy gsize s → Inv gsize s
  Reach-Inv small start = Inv-init small
  Reach-Inv small (later r st) = Step-Inv st (Reach-Inv small r)
