-- ===== src/Zaproll/Config/Adjust.antt =====
-- zaproll/config.go: `adjust`, and the sizes afterwards.
use Prim.Native.Nat.{max}
use mathlib.Core.Path.{subst⁻¹}
use nanozap.Base.{
  ℕ, zero, suc, ap, ◌∙◌, ◌+◌, ◌*◌, ◌%◌, ◌^◌, ◌≤◌, ◌<◌, ◌≡◌, refl, true, false, arith, if◌then◌else◌,
}
use nanozap.Base.Int.{ℤ, pos, negsuc, ◌≤ℤ◌, leb_ℤ}
use nanozap.Base.Word.{mul_i64_pos, mul_i64}
use nanozap.Zaproll.Config.{
  Config, page_size, align_to_page, scaled, align_sizes, set_defaults, default_max_backups, adjust,
  kb, mb, default_max_size, default_per_write_size, default_per_sync_size,
}
use nanozap.Zaproll.Config.Align.{align_to_page_pos, pages_up}

-- A size that is scaled without overflow is positive.
scaled_pos :
    (s : ℤ) (d bound unit : ℕ)
    → s ≤ℤ pos bound
    → 0 < d
    → 0 < unit
    → unit < 2 ^ 64
    → bound < 2 ^ 64
    → bound * unit < 2 ^ 63
    → (v : ℕ) × (scaled s (pos d) unit ≡ pos v) × (0 < v) × (v ≤ max d (bound * unit))
scaled_pos (negsuc a) d bound unit h p u w b f = (d, ground arith, p, omega arith)
scaled_pos (pos zero) d bound unit h p u w b f = (d, ground arith, p, omega arith)
scaled_pos (pos (suc a)) d bound unit h p u w b f =
    let under : suc a * unit ≤ bound * unit = grind arith in
    let positive : 0 < suc a * unit = grind arith in
    (
      suc a * unit,
      ground (arith, mul_i64_pos (suc a) unit (omega arith) w (omega arith)),
      positive,
      omega arith,
    )

-- Sizes far enough below the overflow of `int64`, in the units of the configuration.
pub record Fits (c : Config) : Type 0 where
  pub max_size : c.max_size ≤ℤ pos (2 ^ 42)
  pub per_write_size : c.per_write_size ≤ℤ pos (2 ^ 51)
  pub per_sync_size : c.per_sync_size ≤ℤ pos (2 ^ 42)

-- Whole pages, and not none.
abbrev pub IsPages : ℕ → Type 0
IsPages n = (0 < n) × (n % page_size ≡ 0)

pub record Adjusted (c a : Config) : Type 0 where
  pub max_size : ℕ
  pub per_write_size : ℕ
  pub per_sync_size : ℕ
  pub max_size_eq : a.max_size ≡ pos max_size
  pub per_write_size_eq : a.per_write_size ≡ pos per_write_size
  pub per_sync_size_eq : a.per_sync_size ≡ pos per_sync_size
  pub max_size_pages : IsPages max_size
  pub per_write_size_pages : IsPages per_write_size
  pub per_sync_size_pages : IsPages per_sync_size
  pub ratio : 2 * per_write_size ≤ per_sync_size + page_size
  pub backups : pos 1 ≤ℤ a.max_backups
  pub output_path_eq : a.output_path ≡ c.output_path
  pub local_time_eq : a.local_time ≡ c.local_time

align_sizes_lem :
    (c₀ c : Config) (mx pw ps : ℕ)
    → c.output_path ≡ c₀.output_path
    → c.local_time ≡ c₀.local_time
    → c.max_size ≡ pos mx
    → c.per_write_size ≡ pos pw
    → c.per_sync_size ≡ pos ps
    → 0 < mx
    → 0 < pw
    → 0 < ps
    → mx ≤ 2 ^ 62
    → pw ≤ 2 ^ 61
    → ps ≤ 2 ^ 62
    → pos 1 ≤ℤ c.max_backups
    → Adjusted c₀ (align_sizes c)
unfolding align_sizes
align_sizes_lem c₀ c mx pw ps eo el em ew es pm pw' ps' bm bw bs back =
    let sync = max ps (2 * pw) in
    let twice : mul_i64 (pos 2) c.per_write_size ≡ pos (2 * pw) =
      ap (mul_i64 (pos 2)) ew ∙ mul_i64_pos 2 pw (omega arith) (omega arith) (omega arith) in
    record {
      max_size = pages_up mx;
      per_write_size = pages_up pw;
      per_sync_size = pages_up sync;
      max_size_eq = ap align_to_page em ∙ align_to_page_pos mx (omega arith);
      per_write_size_eq = ap align_to_page ew ∙ align_to_page_pos pw (omega arith);
      per_sync_size_eq =
          ap align_to_page (ground (arith, es, twice)) ∙ align_to_page_pos sync (omega arith);
      max_size_pages = omega arith;
      per_write_size_pages = omega arith;
      per_sync_size_pages = omega arith;
      ratio = omega arith;
      backups = back;
      output_path_eq = eo;
      local_time_eq = el;
    }

adjust-production :
    (c : Config) → c.developed ≡ false → adjust c ≡ align_sizes (set_defaults kb mb c)
unfolding adjust
adjust-production c h = simp h

adjust-develop : (c : Config) → c.developed ≡ true → adjust c ≡ set_defaults 1 1 c
unfolding adjust
adjust-develop c h = simp h

some_backups : (z : ℤ) → pos 1 ≤ℤ (if leb_ℤ z (pos 0) then default_max_backups else z)
some_backups z = ground arith

-- Outside develop mode, and if nothing overflows, every size is afterwards a positive whole number
-- of pages, at least one backup is kept, and a sync covers two writes, but for the page that the
-- rounding of both may cost; the path and the choice of the clock stay.
pub adjust-Adjusted : (c : Config) → c.developed ≡ false → Fits c → Adjusted c (adjust c)
unfolding set_defaults
adjust-Adjusted c dev f =
    let (mx, em, pm, bm) =
      scaled_pos c.max_size (128 * mb) (2 ^ 42) mb f.max_size (omega arith) (omega arith)
        (omega arith) (omega arith) (omega arith) in
    let (pw, ew, pw', bw) =
      scaled_pos c.per_write_size (64 * kb) (2 ^ 51) kb f.per_write_size (omega arith) (omega arith)
        (omega arith) (omega arith) (omega arith) in
    let (ps, es, ps', bs) =
      scaled_pos c.per_sync_size (16 * mb) (2 ^ 42) mb f.per_sync_size (omega arith) (omega arith)
        (omega arith) (omega arith) (omega arith) in
    subst⁻¹ (Adjusted c) (adjust-production c dev) (
      align_sizes_lem c (set_defaults kb mb c) mx pw ps refl refl em ew es pm pw' ps' (omega arith)
        (omega arith) (omega arith) (some_backups c.max_backups))

scaled_one : (s d : ℤ) (a : ℕ) → s ≡ pos (suc a) → suc a < 2 ^ 63 → scaled s d 1 ≡ s
scaled_one s d a e h =
    rw e (ground (arith, mul_i64_pos (suc a) 1 (omega arith) (omega arith) (omega arith)))

-- In develop mode a size that is set stays as it is, to the byte.
pub adjust_developed :
    (c : Config) (mx pw ps : ℕ)
    → c.developed ≡ true
    → c.max_size ≡ pos (suc mx)
    → c.per_write_size ≡ pos (suc pw)
    → c.per_sync_size ≡ pos (suc ps)
    → suc mx < 2 ^ 63
    → suc pw < 2 ^ 63
    → suc ps < 2 ^ 63
    → ((adjust c).max_size ≡ c.max_size)
      × ((adjust c).per_write_size ≡ c.per_write_size)
      × ((adjust c).per_sync_size ≡ c.per_sync_size)
      × ((adjust c).max_backups ≡ (if leb_ℤ c.max_backups (pos 0) then pos 4 else c.max_backups))
unfolding set_defaults
adjust_developed c mx pw ps dev em ew es hm hw hs =
    subst⁻¹
      (λ a.
        (a.max_size ≡ c.max_size)
        × (a.per_write_size ≡ c.per_write_size)
        × (a.per_sync_size ≡ c.per_sync_size)
        × (a.max_backups ≡ (if leb_ℤ c.max_backups (pos 0) then pos 4 else c.max_backups)))
      (adjust-develop c dev)
      (
        scaled_one c.max_size default_max_size mx em hm,
        scaled_one c.per_write_size default_per_write_size pw ew hw,
        scaled_one c.per_sync_size default_per_sync_size ps es hs,
        refl,
      )
