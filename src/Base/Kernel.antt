-- ===== src/Base/Kernel.antt =====
-- The kernel services that the character drivers move bytes with. They are code outside of the
-- repository: a record of functions that the drivers' definitions take, and the laws that their
-- documentation gives, as hypotheses of the theorems that need them.
use linux_device_driver.Base.Lists.{length, take, drop, replicate, splice}
use linux_device_driver.Base.Lists.{length-take, length-append, length-replicate}
use Prim.Native.Nat.{ℕ, ◌+◌, ◌-◌, ◌≤◌}
use mathlib.Core.Path.{◌≡◌, ◌∙◌}
use mathlib.Core.Logic.{◌⊎◌}
use mathlib.Core.List.{List, ◌++◌}
use native.Mathlib.Omega.{arith}

-- `Buf` is what a user-space address stands for.
pub record Uaccess (Buf : Type 0) : Type 0 where
  -- copy_to_user(buf, src, n) for the `n` bytes given: the user's memory afterwards, and the number
  -- of bytes that could not be copied.
  pub copy_to_user : Buf → List ℕ → Buf × ℕ
  -- copy_from_user(dst, buf, n): the `n` bytes that `dst` holds afterwards, and the number of bytes
  -- that could not be copied.
  pub copy_from_user : Buf → ℕ → List ℕ × ℕ

-- The destination is filled whole: what could not be copied is padded with zeros.
pub record IsUaccess {Buf : Type 0} (ua : Uaccess Buf) : Type 0 where
  pub filled : (b : Buf) (n : ℕ) → length (ua.copy_from_user b n).0 ≡ n

-- memcpy(a + dst, a + src, n) inside one array `a`: the array afterwards.
abbrev pub Memcpy : Type 0
Memcpy = List ℕ → ℕ → ℕ → ℕ → List ℕ

-- What memmove does for every pair of ranges.
abbrev pub memmove : Memcpy
memmove a dst src n = splice a dst (take n (drop src a))

-- The C standard fixes the result of memcpy only where the two ranges are disjoint.
abbrev pub IsMemcpy : Memcpy → Type 0
IsMemcpy cpy =
    (a : List ℕ) (dst src n : ℕ)
    → (dst + n ≤ src) ⊎ (src + n ≤ dst)
    → cpy a dst src n ≡ memmove a dst src n

-- A memcpy that copies overlapping ranges as memmove does.
abbrev pub IsMemmove : Memcpy → Type 0
IsMemmove cpy = (a : List ℕ) (dst src n : ℕ) → cpy a dst src n ≡ memmove a dst src n

-- A user buffer for evaluation: the bytes that can be accessed at the address.
abbrev pub list_uaccess : Uaccess (List ℕ)
list_uaccess = record {
  copy_to_user = λ b xs. (splice b 0 xs, length xs - length b);
  copy_from_user = λ b n. (take n b ++ replicate (n - length b) 0, n - length b);
}

pub list_uaccess-IsUaccess : IsUaccess list_uaccess
list_uaccess-IsUaccess = record { filled = padded }
  where
    padded : (b : List ℕ) (n : ℕ) → length (take n b ++ replicate (n - length b) 0) ≡ n
    padded b n =
        length-append (take n b) (replicate (n - length b) 0)
        ∙ omega (arith, length-take n b, length-replicate {A = ℕ} (n - length b) 0)
