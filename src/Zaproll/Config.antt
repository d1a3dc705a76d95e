-- ===== src/Zaproll/Config.antt =====
-- zaproll/config.go: the configuration of a rotation, and its adjustment to defaults and pages.
pub mod Align
pub mod Adjust
mod Tests
use nanozap.Base.{ℕ, ◌+◌, ◌-◌, ◌*◌, ◌%◌, ◌^◌, Bool, true, false, List, bit_and, if◌then◌else◌, not}
use nanozap.Base.Int.{ℤ, pos, negsuc, leb_ℤ, ltb_ℤ}
use nanozap.Base.Word.{word, to_i64, mul_i64, add_i64}

-- A path is its bytes. `MaxBackups` is an `int` of 64 bits.
pub record Config : Type 0 where
  pub output_path : List ℕ
  pub max_size : ℤ
  pub max_backups : ℤ
  pub local_time : Bool
  pub per_write_size : ℤ
  pub per_sync_size : ℤ
  pub developed : Bool

abbrev pub kb : ℕ
kb = 1024

abbrev pub mb : ℕ
mb = 1024 * kb

abbrev pub default_per_write_size : ℤ
default_per_write_size = pos (64 * kb)

abbrev pub default_per_sync_size : ℤ
default_per_sync_size = pos (16 * mb)

abbrev pub default_max_size : ℤ
default_max_size = pos (128 * mb)

abbrev pub default_max_backups : ℤ
default_max_backups = pos 4

abbrev pub page_size : ℕ
page_size = 2 ^ 12

-- `(n + pageSize - 1) &^ (pageSize - 1)`: `x &^ m` clears the bits that `x` shares with `m`.
pub align_to_page : ℤ → ℤ
align_to_page n =
    let x = word (add_i64 (add_i64 n (pos page_size)) (negsuc 0)) in
    to_i64 (x - bit_and x (page_size - 1))

-- A size that is not set takes its default; any other is in units.
abbrev pub scaled : ℤ → ℤ → ℕ → ℤ
scaled size default unit = if leb_ℤ size (pos 0) then default else mul_i64 size (pos unit)

-- The last block of `adjust`, outside develop mode.
pub align_sizes : Config → Config
align_sizes c =
    let twice = mul_i64 (pos 2) c.per_write_size in
    let sync = if ltb_ℤ c.per_sync_size twice then twice else c.per_sync_size in
    record c {
      max_size = align_to_page c.max_size;
      per_write_size = align_to_page c.per_write_size;
      per_sync_size = align_to_page sync;
    }

-- `adjust` up to that block, with the units `k` and `m`.
pub set_defaults : ℕ → ℕ → Config → Config
set_defaults k m c = record c {
  max_size = scaled c.max_size default_max_size m;
  max_backups = if leb_ℤ c.max_backups (pos 0) then default_max_backups else c.max_backups;
  per_write_size = scaled c.per_write_size default_per_write_size k;
  per_sync_size = scaled c.per_sync_size default_per_sync_size m;
}

pub adjust : Config → Config
adjust c =
    let k = if c.developed then 1 else kb in
    let m = if c.developed then 1 else mb in
    let c₁ = set_defaults k m c in if c.developed then c₁ else align_sizes c₁
