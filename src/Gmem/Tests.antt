-- ===== src/Gmem/Tests.antt =====
-- gmem/gmem.c on a device of four bytes.
use linux_device_driver.Base.{[], ◌∷◌, List, ℕ}

abbrev four : List ℕ
four = 1 ∷ 2 ∷ 3 ∷ 4 ∷ []
