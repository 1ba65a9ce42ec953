-- ===== src/Led/Setup/Places.antt =====
-- led/led_support.c: the places of the registered LEDs.
use linux_device_driver.Base.{
  ℕ, zero, suc, ◌<◌, ◌≡◌, refl, ap, ◌∙◌, true, false, Option, none, some, List, ◌∷◌, if◌then◌else◌,
  ◌==◌, arith,
}
use linux_device_driver.Base.Maybe.{◌>>=◌}
use linux_device_driver.Led.Setup.{removed}

-- The LEDs `i`, …, `i + n - 1`, registered in this order on top of `acc`.
abbrev pub pushed : ℕ → ℕ → List ℕ → List ℕ
pushed i zero acc = acc
pushed i (suc n) acc = pushed (suc i) n (i ∷ acc)

bind_some : (o : Option (List ℕ)) → o ≡ (o >>= λ ys. some ys)
bind_some none = refl
bind_some (some ys) = refl

bind_twice :
    (o : Option (List ℕ)) (f : List ℕ → List ℕ) (g : List ℕ → List ℕ)
    → ((o >>= λ ys. some (f ys)) >>= λ ys. some (g ys)) ≡ (o >>= λ ys. some (g (f ys)))
bind_twice none f g = refl
bind_twice (some ys) f g = refl

removed_other :
    (i j : ℕ) (xs : List ℕ) → i < j → removed i (j ∷ xs) ≡ (removed i xs >>= λ ys. some (j ∷ ys))
unfolding removed
removed_other i j xs h =
    let t : (j == i) ≡ false = ground arith in rw (removed, t, if◌then◌else◌) refl

removed_below :
    (i j n : ℕ) (xs : List ℕ)
    → i < j
    → removed i (pushed j n xs) ≡ (removed i xs >>= λ ys. some (pushed j n ys))
removed_below i j zero xs h = bind_some (removed i xs)
removed_below i j (suc n) xs h =
    removed_below i (suc j) n (j ∷ xs) (omega arith)
    ∙ ap (λ o. o >>= λ ys. some (pushed (suc j) n ys)) (removed_other i j xs h)
    ∙ bind_twice (removed i xs) (λ ys. j ∷ ys) (λ ys. pushed (suc j) n ys)

pub removed_first :
    (i n : ℕ) (acc : List ℕ) → removed i (pushed i (suc n) acc) ≡ some (pushed (suc i) n acc)
unfolding removed
removed_first i n acc =
    let t : (i == i) ≡ true = ground arith in
    removed_below i (suc i) n (i ∷ acc) (omega arith) ∙ rw (removed, t, if◌then◌else◌, ◌>>=◌) refl
