-- ===== src/Zaproll/Config/Tests.antt =====
-- The configuration at concrete sizes, as in zaproll/config_test.go.
use nanozap.Base.{ℕ, ◌*◌, ◌%◌, ◌^◌, ◌≤◌, ◌≡◌, refl, true, false, [], arith, if◌then◌else◌}
use nanozap.Base.Int.{pos, leb_ℤ}
use nanozap.Base.Word.{word, to_i64, mul_i64, add_i64}
use nanozap.Zaproll.Config.{Config, page_size, align_to_page, align_sizes, set_defaults, adjust}
use nanozap.Zaproll.Config.Align.{align_to_page_least}
use nanozap.Zaproll.Config.Adjust.{Adjusted, adjust-Adjusted, adjust_developed}

abbrev unset : Config
unset = record {
  output_path = [];
  max_size = pos 0;
  max_backups = pos 0;
  local_time = false;
  per_write_size = pos 0;
  per_sync_size = pos 0;
  developed = false;
}

abbrev develop : Config
develop = record unset {
  developed = true;
  max_size = pos 1;
  per_write_size = pos 2;
  per_sync_size = pos 3;
}

-- TestConfigParse
defaults : adjust unset ≡ record unset {
  max_size = pos (128 * 2 ^ 20);
  max_backups = pos 4;
  per_write_size = pos (64 * 2 ^ 10);
  per_sync_size = pos (16 * 2 ^ 20);
}
unfolding adjust set_defaults align_sizes align_to_page word to_i64 mul_i64 add_i64
defaults = refl

-- A write size of 5121 KB: the rounding of both sizes costs the sync one page of two writes.
ratio_lost :
    ((adjust (record unset { per_write_size = pos 5121; per_sync_size = pos 1 })).per_sync_size
      ≡ pos (2561 * 4096))
    × ((adjust (record unset { per_write_size = pos 5121; per_sync_size = pos 1 })).per_write_size
        ≡ pos (1281 * 4096))
unfolding adjust set_defaults align_sizes align_to_page word to_i64 mul_i64 add_i64
ratio_lost = (refl, refl)

-- 2^44 MB overflow to no size at all.
overflow : (adjust (record unset { max_size = pos (2 ^ 44) })).max_size ≡ pos 0
unfolding adjust set_defaults align_sizes align_to_page word to_i64 mul_i64 add_i64
overflow = refl

align_to_page_least_example :
    (r : ℕ) × (align_to_page (pos 4097) ≡ pos r)
    × (r % page_size ≡ 0)
    × (4097 ≤ r)
    × ((m : ℕ) → m % page_size ≡ 0 → 4097 ≤ m → r ≤ m)
align_to_page_least_example = align_to_page_least 4097 (omega arith)

adjust-Adjusted_example :
    Adjusted
      (record unset { per_write_size = pos 5121 })
      (adjust (record unset { per_write_size = pos 5121 }))
adjust-Adjusted_example =
    adjust-Adjusted (record unset { per_write_size = pos 5121 }) refl (omega arith)

developed_sizes :
    ((adjust develop).max_size ≡ pos 1)
    × ((adjust develop).per_write_size ≡ pos 2)
    × ((adjust develop).per_sync_size ≡ pos 3)
    × ((adjust develop).max_backups ≡ (if leb_ℤ (pos 0) (pos 0) then pos 4 else pos 0))
developed_sizes =
    adjust_developed develop 0 1 2 refl refl refl refl (omega arith) (omega arith) (omega arith)
