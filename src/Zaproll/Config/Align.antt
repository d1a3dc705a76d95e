-- ===== src/Zaproll/Config/Align.antt =====
-- zaproll/config.go: `alignToPage`.
use nanozap.Base.{ℕ, suc, ap, ◌∙◌, ◌+◌, ◌-◌, ◌*◌, ◌/◌, ◌%◌, ◌^◌, ◌≤◌, ◌<◌, ◌≡◌, arith}
use nanozap.Base.Int.{pos}
use nanozap.Base.Bits.{bit_and_mask}
use nanozap.Base.Word.{word_pos, to_i64_pos, add_i64_pos, add_i64-minus_one}
use nanozap.Zaproll.Config.{page_size, align_to_page}

-- `n` rounded up to a multiple of the page size.
abbrev pub pages_up : ℕ → ℕ
pages_up n = (n + 4095) / 4096 * 4096

pub align_to_page_pos : (n : ℕ) → n + page_size < 2 ^ 63 → align_to_page (pos n) ≡ pos (pages_up n)
unfolding align_to_page
align_to_page_pos n h =
    let up : n + 4096 ≡ suc (n + 4095) = omega arith in
    rw (add_i64_pos n 4096 h, up, add_i64-minus_one (n + 4095) (omega arith))
      (rw (word_pos (n + 4095) (omega arith), bit_and_mask 12 (n + 4095))
        (to_i64_pos (n + 4095 - (n + 4095) % 4096) (omega arith) ∙ ap pos (omega arith)))

-- The least multiple of the page size that is not below a size, if nothing overflows.
pub align_to_page_least :
    (n : ℕ)
    → n + page_size < 2 ^ 63
    → (r : ℕ) × (align_to_page (pos n) ≡ pos r)
      × (r % page_size ≡ 0)
      × (n ≤ r)
      × ((m : ℕ) → m % page_size ≡ 0 → n ≤ m → r ≤ m)
align_to_page_least n h =
    (pages_up n, align_to_page_pos n h, omega arith, omega arith, λ m e l. omega arith)
