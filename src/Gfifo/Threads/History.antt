-- ===== src/Gfifo/Threads/History.antt =====
-- The queue that a history of completed calls leaves, if it is a history of a queue at all.
use linux_device_driver.Base.{
  ℕ, ◌≡◌, refl, ap, Option, none, some, List, [], ◌∷◌, ◌++◌, ◌==◌, if◌then◌else◌, arith, length,
  replicate,
}
use linux_device_driver.Gfifo.Spec.{Queue}
use linux_device_driver.Gfifo.Threads.{Op, put, got, wiped}

-- `q` without the bytes `xs` at its front; `none` if they do not stand there.
abbrev pub strip : List ℕ → Queue → Option Queue
strip [] q = some q
strip (x ∷ xs) [] = none
strip (x ∷ xs) (y ∷ q) = let rest = strip xs q in if x == y then rest else none

abbrev pub apply : Op → Queue → Option Queue
apply (put xs) q = some (q ++ xs)
apply (got xs) q = strip xs q
apply wiped q = some (replicate (length q) 0)

abbrev pub chain : Option Queue → (Queue → Option Queue) → Option Queue
chain none f = none
chain (some q) f = f q

abbrev pub replay : List Op → Queue → Option Queue
replay [] q = some q
replay (op ∷ ops) q = chain (apply op q) (replay ops)

chain-eq_some :
    (f g : Queue → Option Queue) (r : Queue) (z : Option Queue)
    → ((q : Queue) → f q ≡ some r → g q ≡ z)
    → (o : Option Queue) → chain o f ≡ some r
    → chain o g ≡ z
chain-eq_some f g r z h none e = cc
chain-eq_some f g r z h (some q) e = h q e

pub strip-append : (xs q : List ℕ) → strip xs (xs ++ q) ≡ some q
strip-append [] q = refl
strip-append (x ∷ xs) q = ground (arith, strip-append xs q)

-- A completed call adds its own effect to what the history before it leaves.
pub replay-append :
    (l ops : List Op) (q r : Queue) → replay l q ≡ some r → replay (l ++ ops) q ≡ replay ops r
replay-append [] ops q r h = ap (λ (o : Option Queue). chain o (replay ops)) h
replay-append (o ∷ l) ops q r h =
    chain-eq_some (replay l) (replay (l ++ ops)) r (replay ops r) (λ q'. replay-append l ops q' r)
      (apply o q) h
