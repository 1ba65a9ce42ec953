-- ===== src/Logbuffer/Tests.antt =====
-- logbuffer/logbuffer.c on a concrete region.
use linux_device_driver.Base.{
  ℕ, ◌≡◌, refl, ◌∙◌, some, List, [], ◌∷◌, map, arith, length, take, replicate, length-replicate,
  pos, true, ap, sym,
}
use linux_device_driver.Logbuffer.{
  Log, Kernel, Message, named, process_logbuffer, show_log, logbuff_size,
}
use linux_device_driver.Logbuffer.Lines.{process_lines, shown_line, text_lines}
use linux_device_driver.Logbuffer.Show.{show_total}

abbrev text : List ℕ
text = b'h' ∷ b'i' ∷ 13 ∷ 10 ∷ b'y' ∷ []

abbrev blank : List ℕ
blank = replicate 2048 0

process_lines_example :
    process_logbuffer (some blank) text [] 5
    ≡ some (named [] (map shown_line (text_lines [] (take 5 text))))
process_lines_example =
    process_lines blank text [] 5 (length-replicate {A = ℕ} 2048 0) (omega arith) (omega arith)

two_shown : map shown_line (text_lines [] text) ≡ (b'h' ∷ b'i' ∷ 10 ∷ []) ∷ []
two_shown = refl

abbrev log : Log
log = record { tag = 0xc0de4ced; start = 0; end = 5; buf = text }

abbrev sys : Kernel
sys = record {
  strtol = λ s. pos (length s);
  request_mem_region = λ a n. true;
  ioremap = λ a n. some log;
  kmalloc = λ i. some blank;
}

gives : (i : ℕ) (m : List ℕ) → sys.kmalloc i ≡ some m → length m ≡ logbuff_size
gives i m e =
    let same : blank ≡ m = cc e in
    ap (λ (l : List ℕ). length l) (sym same) ∙ length-replicate {A = ℕ} 2048 0

show_total_example : (out : List Message) × (show_log sys log [] 45 ≡ some out)
show_total_example = show_total sys gives log [] 45 refl (omega arith) (omega arith)
