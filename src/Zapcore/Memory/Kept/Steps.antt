-- ===== src/Zapcore/Memory/Kept/Steps.antt =====
-- What one assignment, and one nested map, do to the map that is written to.
use mathlib.Core.Path.{subst}
use nanozap.Base.{◌≢◌, ℕ, suc, ◌<◌, ◌≡◌, refl, ap, sym, ◌∙◌, List, [], arith}
use nanozap.Zapcore.Encoder.{
  Externals, Members, end, member, binary_member, reflected_member, namespace,
}
use nanozap.Zapcore.Memory.{
  byte_slice, reflected, Stored, leaf, map_at, Map, Heap, MapObjectEncoder, assign, put, store,
  make, add_value, add_members,
}
use nanozap.Zapcore.Memory.Tree.{Tree, dict, Dict, empty, with_entry, filled, Holds, HoldsDict}
use nanozap.Zapcore.Memory.Kept.Frame.{
  Keeps, Spares, Keeps-later, Spares-trans, Spares→Keeps, Keeps→Spares, HoldsDict-kept,
  HoldsDict-assign,
}

module _ (ex : Externals) where
  -- The map at c stood for d and stands for d', and no other map is touched.
  abbrev pub Step : ℕ → Heap ex → Dict ex → Heap ex → Dict ex → Type 0
  Step c h d h' d' =
      (c < h.next)
      → HoldsDict ex h (suc c) (h.maps c) d
      → Spares ex c h h' × HoldsDict ex h' (suc c) (h'.maps c) d'

  pub put_other : (a b : ℕ) (m : Map ex) (maps : ℕ → Map ex) → b ≢ a → put ex a m maps b ≡ maps b
  put_other a b m maps ne = ground arith

  pub put_same : (a : ℕ) (m : Map ex) (maps : ℕ → Map ex) → put ex a m maps a ≡ m
  put_same a m maps = ground arith

  pub store-Spares :
      (c : ℕ) (k : List ℕ) (s : Stored ex) (h : Heap ex) → Spares ex c h (store ex c k s h)
  store-Spares c k s h = (omega arith, λ a l ne. put_other c a (assign ex k s (h.maps c)) h.maps ne)

  pub store-Step :
      (c : ℕ) (k : List ℕ) (s : Stored ex) (t : Tree ex) (h : Heap ex) (d : Dict ex)
      → Holds ex h (suc c) s t
      → Step c h d (store ex c k s h) (with_entry ex k t d)
  store-Step c k s t h d new l hs =
      let h' = store ex c k s h in
      let spares = store-Spares c k s h in
      (
        spares,
        subst (λ m. HoldsDict ex h' (suc c) m (with_entry ex k t d))
            (sym (put_same c (assign ex k s (h.maps c)) h.maps))
            (HoldsDict-kept ex h h' (suc c) (assign ex k s (h.maps c)) (with_entry ex k t d)
              (Spares→Keeps ex c h h' spares)
              (HoldsDict-assign ex h (suc c) k s t (h.maps c) d new hs)),
      )

  pub Step-trans :
      (c : ℕ) (h h₁ h₂ : Heap ex) (d d₁ d₂ : Dict ex)
      → Step c h d h₁ d₁
      → Step c h₁ d₁ h₂ d₂
      → Step c h d h₂ d₂
  Step-trans c h h₁ h₂ d d₁ d₂ one two l hs =
      let (spares, hs₁) = one l hs in
      let (spares₁, hs₂) = two (omega arith) hs₁ in (Spares-trans ex c h h₁ h₂ spares spares₁, hs₂)

  pub Keeps-Step : (c : ℕ) (h h' : Heap ex) (d : Dict ex) → Keeps ex 0 h h' → Step c h d h' d
  Keeps-Step c h h' d k l hs =
      let (n, same) = k in
      (
        Keeps→Spares ex c h h' k,
        subst (λ m. HoldsDict ex h' (suc c) m d) (sym (same c (omega arith) l))
            (HoldsDict-kept ex h h' (suc c) (h.maps c) d
              (Keeps-later ex 0 (suc c) h h' (omega arith) k) hs),
      )

  -- After a fresh map is put under a key and then filled.
  pub nested-Step :
      (c : ℕ) (k : List ℕ) (h h' : Heap ex) (d d' : Dict ex)
      → Step h.next (store ex c k (map_at h.next) (make ex h)) empty h' d'
      → Step c h d h' (with_entry ex k (dict d') d)
  unfolding Holds HoldsDict
  nested-Step c k h h' d d' inner l hs =
      let n = h.next in
      let h₁ = store ex c k (map_at n) (make ex h) in
      let fresh : h₁.maps n ≡ [] =
        put_other c n (assign ex k (map_at n) ((make ex h).maps c)) (make ex h).maps
          (λ e. omega arith)
        ∙ put_same n [] h.maps in
      let ((le, same), filled) =
        inner (omega arith) (subst (λ m. HoldsDict ex h₁ (suc n) m empty) (sym fresh) tt) in
      let spares : Spares ex c h h' = (
        omega arith,
        λ a l ne.
            same a (omega arith) (λ e. omega arith)
            ∙ put_other c a (assign ex k (map_at n) ((make ex h).maps c)) (make ex h).maps ne
            ∙ put_other n a [] h.maps (λ e. omega arith),
      ) in
      let at_c : h'.maps c ≡ assign ex k (map_at n) (h.maps c) =
        same c (omega arith) (λ e. omega arith)
        ∙ put_same c (assign ex k (map_at n) ((make ex h).maps c)) (make ex h).maps
        ∙ ap (assign ex k (map_at n)) (put_other n c [] h.maps (λ e. omega arith)) in
      (
        spares,
        subst (λ m. HoldsDict ex h' (suc c) m (with_entry ex k (dict d') d)) (sym at_c)
            (HoldsDict-assign ex h' (suc c) k (map_at n) (dict d') (h.maps c) d
              (omega arith, omega arith, filled)
              (HoldsDict-kept ex h h' (suc c) (h.maps c) d (Spares→Keeps ex c h h' spares) hs)),
      )

  pub made-Keeps :
      (h h' : Heap ex) (d' : Dict ex)
      → Step h.next (make ex h) empty h' d'
      → Keeps ex 0 h h' × Holds ex h' h.next (map_at h.next) (dict d')
  unfolding Holds HoldsDict
  made-Keeps h h' d' inner =
      let n = h.next in
      let ((le, same), filled) =
        inner (omega arith)
          (subst (λ m. HoldsDict ex (make ex h) (suc n) m empty) (sym (put_same n [] h.maps)) tt) in
      (
        (
          omega arith,
          λ a l s.
              same a (omega arith) (λ e. omega arith) ∙ put_other n a [] h.maps (λ e. omega arith),
        ),
        (omega arith, omega arith, filled),
      )

  pub add_members-fields :
      (ms : Members ex) (m : MapObjectEncoder ex) (h : Heap ex)
      → (add_members ex ms m h).0.fields ≡ m.fields
  unfolding add_members
  add_members-fields end m h = refl
  add_members-fields (member k v ms) m h = add_members-fields ms m (add_value ex k v m h)
  add_members-fields (binary_member k s ms) m h =
      add_members-fields ms m (store ex m.cur k (leaf (byte_slice s)) h)
  add_members-fields (reflected_member k r ms) m h =
      add_members-fields ms m (store ex m.cur k (leaf (reflected r)) h)
  add_members-fields (namespace k ms) m h =
      add_members-fields ms (record m { cur = h.next })
        (store ex m.cur k (map_at h.next) (make ex h))

  pub Keeps-refl : (h : Heap ex) → Keeps ex 0 h h
  Keeps-refl h = (omega arith, λ a l s. refl)
