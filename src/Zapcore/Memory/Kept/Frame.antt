-- ===== src/Zapcore/Memory/Kept/Frame.antt =====
-- A heap of maps, where other maps are written to.
use mathlib.Core.Path.{subst}
use nanozap.Base.{
  ◌≢◌, ℕ, suc, ◌≤◌, ◌<◌, ◌≡◌, refl, sym, ◌∙◌, List, [], ◌∷◌, arith, Bool-cases, inl, inr,
}
use nanozap.Base.Bytes.{bytes_eq}
use nanozap.Zapcore.Encoder.{Externals}
use nanozap.Zapcore.Memory.{Stored, leaf, slice, map_at, Elems, no_elems, elem, Map, Heap, assign}
use nanozap.Zapcore.Memory.Tree.{
  Tree, plain, list, dict, Trees, no_trees, tree_then, Dict, empty, entry_then, with_entry, Holds,
  HoldsAll, HoldsDict,
}

module _ (ex : Externals) where
  -- The maps at addresses from `lo` on are as they were.
  abbrev pub Keeps : ℕ → Heap ex → Heap ex → Type 0
  Keeps lo h h' = (h.next ≤ h'.next) × ((a : ℕ) → lo ≤ a → a < h.next → h'.maps a ≡ h.maps a)

  -- So are all but that at c.
  abbrev pub Spares : ℕ → Heap ex → Heap ex → Type 0
  Spares c h h' = (h.next ≤ h'.next) × ((a : ℕ) → a < h.next → a ≢ c → h'.maps a ≡ h.maps a)

  pub Keeps-later : (lo lo' : ℕ) (h h' : Heap ex) → lo ≤ lo' → Keeps lo h h' → Keeps lo' h h'
  Keeps-later lo lo' h h' le (n, same) = (n, λ a l s. same a (omega arith) s)

  pub Keeps-trans : (lo : ℕ) (h h₁ h₂ : Heap ex) → Keeps lo h h₁ → Keeps lo h₁ h₂ → Keeps lo h h₂
  Keeps-trans lo h h₁ h₂ (n, same) (n', same') =
      (omega arith, λ a l s. same' a l (omega arith) ∙ same a l s)

  pub Spares-trans : (c : ℕ) (h h₁ h₂ : Heap ex) → Spares c h h₁ → Spares c h₁ h₂ → Spares c h h₂
  Spares-trans c h h₁ h₂ (n, same) (n', same') =
      (omega arith, λ a s ne. same' a (omega arith) ne ∙ same a s ne)

  pub Spares→Keeps : (c : ℕ) (h h' : Heap ex) → Spares c h h' → Keeps (suc c) h h'
  Spares→Keeps c h h' (n, same) = (n, λ a l s. same a s (λ e. omega arith))

  pub Keeps→Spares : (c : ℕ) (h h' : Heap ex) → Keeps 0 h h' → Spares c h h'
  Keeps→Spares c h h' (n, same) = (n, λ a s ne. same a (omega arith) s)

  mutual
    unfolding Holds

    pub Holds-kept :
        (h h' : Heap ex) (lo : ℕ) (s : Stored ex) (t : Tree ex)
        → Keeps lo h h'
        → Holds ex h lo s t
        → Holds ex h' lo s t
    Holds-kept h h' lo (leaf x) (plain y) k e = e
    Holds-kept h h' lo (slice es) (list ts) k hs = HoldsAll-kept h h' lo es ts k hs
    Holds-kept h h' lo (map_at a) (dict d) (n, same) (l, s, hs) = (
      l,
      omega arith,
      subst (λ m. HoldsDict ex h' (suc a) m d) (sym (same a l s))
          (HoldsDict-kept h h' (suc a) (h.maps a) d
            (Keeps-later lo (suc a) h h' (omega arith) (n, same)) hs),
    )
    Holds-kept h h' lo (leaf x) (list ts) k hs = elim hs [ ]
    Holds-kept h h' lo (leaf x) (dict d) k hs = elim hs [ ]
    Holds-kept h h' lo (slice es) (plain y) k hs = elim hs [ ]
    Holds-kept h h' lo (slice es) (dict d) k hs = elim hs [ ]
    Holds-kept h h' lo (map_at a) (plain y) k hs = elim hs [ ]
    Holds-kept h h' lo (map_at a) (list ts) k hs = elim hs [ ]

    pub HoldsAll-kept :
        (h h' : Heap ex) (lo : ℕ) (es : Elems ex) (ts : Trees ex)
        → Keeps lo h h'
        → HoldsAll ex h lo es ts
        → HoldsAll ex h' lo es ts
    HoldsAll-kept h h' lo no_elems no_trees k hs = hs
    HoldsAll-kept h h' lo (elem s es) (tree_then t ts) k (hs, hss) =
        (Holds-kept h h' lo s t k hs, HoldsAll-kept h h' lo es ts k hss)
    HoldsAll-kept h h' lo no_elems (tree_then t ts) k hs = elim hs [ ]
    HoldsAll-kept h h' lo (elem s es) no_trees k hs = elim hs [ ]

    pub HoldsDict-kept :
        (h h' : Heap ex) (lo : ℕ) (m : Map ex) (d : Dict ex)
        → Keeps lo h h'
        → HoldsDict ex h lo m d
        → HoldsDict ex h' lo m d
    HoldsDict-kept h h' lo [] empty k hs = hs
    HoldsDict-kept h h' lo ((key, s) ∷ m) (entry_then key' t d) k (e, hs, hss) =
        (e, Holds-kept h h' lo s t k hs, HoldsDict-kept h h' lo m d k hss)
    HoldsDict-kept h h' lo [] (entry_then key' t d) k hs = elim hs [ ]
    HoldsDict-kept h h' lo ((key, s) ∷ m) empty k hs = elim hs [ ]

  mutual
    unfolding Holds

    pub Holds-from :
        (h : Heap ex) (lo lo' : ℕ) (s : Stored ex) (t : Tree ex)
        → lo' ≤ lo
        → Holds ex h lo s t
        → Holds ex h lo' s t
    Holds-from h lo lo' (leaf x) (plain y) le e = e
    Holds-from h lo lo' (slice es) (list ts) le hs = HoldsAll-from h lo lo' es ts le hs
    Holds-from h lo lo' (map_at a) (dict d) le (l, free, hs) = (omega arith, free, hs)
    Holds-from h lo lo' (leaf x) (list ts) le hs = elim hs [ ]
    Holds-from h lo lo' (leaf x) (dict d) le hs = elim hs [ ]
    Holds-from h lo lo' (slice es) (plain y) le hs = elim hs [ ]
    Holds-from h lo lo' (slice es) (dict d) le hs = elim hs [ ]
    Holds-from h lo lo' (map_at a) (plain y) le hs = elim hs [ ]
    Holds-from h lo lo' (map_at a) (list ts) le hs = elim hs [ ]

    pub HoldsAll-from :
        (h : Heap ex) (lo lo' : ℕ) (es : Elems ex) (ts : Trees ex)
        → lo' ≤ lo
        → HoldsAll ex h lo es ts
        → HoldsAll ex h lo' es ts
    HoldsAll-from h lo lo' no_elems no_trees le hs = hs
    HoldsAll-from h lo lo' (elem s es) (tree_then t ts) le (hs, hss) =
        (Holds-from h lo lo' s t le hs, HoldsAll-from h lo lo' es ts le hss)
    HoldsAll-from h lo lo' no_elems (tree_then t ts) le hs = elim hs [ ]
    HoldsAll-from h lo lo' (elem s es) no_trees le hs = elim hs [ ]

  -- An assignment adds the entry to what the map stands for.
  pub HoldsDict-assign :
      (h : Heap ex) (lo : ℕ) (k : List ℕ) (s : Stored ex) (t : Tree ex) (m : Map ex) (d : Dict ex)
      → Holds ex h lo s t
      → HoldsDict ex h lo m d
      → HoldsDict ex h lo (assign ex k s m) (with_entry ex k t d)
  unfolding HoldsDict assign with_entry
  HoldsDict-assign h lo k s t [] empty new hs = (refl, new, hs)
  HoldsDict-assign h lo k s t ((key, s') ∷ m) (entry_then key' t' d) new (e, old, hs) =
      elim (Bool-cases (bytes_eq k key')) [
        | inl same ↦ rw (e, same) (refl, new, hs)
        | inr other ↦ rw (e, other) (refl, old, HoldsDict-assign h lo k s t m d new hs)
      ]
  HoldsDict-assign h lo k s t [] (entry_then key' t' d) new hs = elim hs [ ]
  HoldsDict-assign h lo k s t ((key, s') ∷ m) empty new hs = elim hs [ ]
