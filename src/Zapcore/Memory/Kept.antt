-- ===== src/Zapcore/Memory/Kept.antt =====
-- zapcore/memory_encoder.go: what a memory encoder keeps.
mod Frame
mod Steps
use mathlib.Core.Path.{subst}
use nanozap.Base.{
  ◌≢◌, ℕ, zero, suc, ◌==◌, ◌≤◌, ◌<◌, ◌≡◌, refl, ap, sym, ◌∙◌, Bool, true, false, List, [], ◌∷◌,
  arith, if◌then◌else◌,
}
use nanozap.Zapcore.Encoder.{
  Externals, bits64, int_value, Value, primitive, time_value, duration_value, array_value,
  object_value, Values, nil, cons, cons_reflected, Members, end, member, binary_member,
  reflected_member, namespace,
}
use nanozap.Zapcore.Memory.{
  scalar, byte_slice, duration, reflected, add_leaf, Stored, leaf, slice, map_at, Map, Heap,
  MapObjectEncoder, new_map_object_encoder, assign, put, store, make, append_value, append_values,
  add_value, add_members,
}
use nanozap.Zapcore.Memory.Tree.{
  Tree, plain, list, dict, Dict, empty, with_entry, appended, appended_all, added, filled, Holds,
  HoldsAll, HoldsDict,
}
use Frame.{
  Keeps, Spares, Keeps-later, Keeps-trans, Spares-trans, Spares→Keeps, Keeps→Spares, HoldsDict-kept,
  Holds-kept, Holds-from, HoldsAll-from, HoldsDict-assign,
}
use Steps.{
  Keeps-Step, Keeps-refl, Step, Step-trans, add_members-fields, made-Keeps, nested-Step, put_other,
  put_same, store-Spares, store-Step,
}

module _ (ex : Externals) where
  mutual
    unfolding append_value added Holds

    append_value-appended :
        (v : Value ex) (h : Heap ex)
        → Keeps ex 0 h (append_value ex v h).1
          × Holds ex (append_value ex v h).1 h.next (append_value ex v h).0 (appended ex v)
    append_value-appended (primitive p) h = (Keeps-refl ex h, refl)
    append_value-appended (time_value t) h = (Keeps-refl ex h, refl)
    append_value-appended (duration_value d) h = (Keeps-refl ex h, refl)
    append_value-appended (array_value vs) h = append_values-appended vs h
    append_value-appended (object_value ms) h =
        let m : MapObjectEncoder ex = record { fields = h.next; cur = h.next } in
        let h' = (add_members ex ms m (make ex h)).1 in
        subst (λ a. Keeps ex 0 h h' × Holds ex h' h.next (map_at a) (dict (filled ex ms empty)))
          (sym (add_members-fields ex ms m (make ex h)))
          (made-Keeps ex h h' (filled ex ms empty) (add_members-filled ms m (make ex h) empty))

    append_values-appended :
        (vs : Values ex) (h : Heap ex)
        → Keeps ex 0 h (append_values ex vs h).1
          × HoldsAll ex
              (append_values ex vs h).1
              h.next
              (append_values ex vs h).0
              (appended_all ex vs)
    append_values-appended nil h = (Keeps-refl ex h, tt)
    append_values-appended (cons v vs) h =
        let (s, h₁) = append_value ex v h in
        let (es, h₂) = append_values ex vs h₁ in
        let (k, hs) = append_value-appended v h in
        let (k', hss) = append_values-appended vs h₁ in
        (
          Keeps-trans ex 0 h h₁ h₂ k k',
          (
            Holds-kept ex h₁ h₂ h.next s (appended ex v)
                (Keeps-later ex 0 h.next h₁ h₂ (omega arith) k') hs,
            HoldsAll-from ex h₂ h₁.next h.next es (appended_all ex vs) k.0 hss,
          ),
        )
    append_values-appended (cons_reflected r vs) h =
        let (k, hss) = append_values-appended vs h in (k, (refl, hss))

    add_value-added :
        (k : List ℕ) (v : Value ex) (m : MapObjectEncoder ex) (h : Heap ex) (d : Dict ex)
        → Step ex m.cur h d (add_value ex k v m h) (with_entry ex k (added ex v) d)
    add_value-added k (primitive p) m h d =
        store-Step ex m.cur k (leaf (add_leaf ex p)) (plain (add_leaf ex p)) h d refl
    add_value-added k (time_value t) m h d =
        let x = scalar (int_value bits64 t) in store-Step ex m.cur k (leaf x) (plain x) h d refl
    add_value-added k (duration_value t) m h d =
        store-Step ex m.cur k (leaf (duration t)) (plain (duration t)) h d refl
    add_value-added k (array_value vs) m h d = λ l hs.
        let (es, h₁) = append_values ex vs h in
        let (kept, new) = append_values-appended vs h in
        Step-trans ex m.cur h h₁ (store ex m.cur k (slice es) h₁) d d
          (with_entry ex k (list (appended_all ex vs)) d) (Keeps-Step ex m.cur h h₁ d kept)
          (store-Step ex m.cur k (slice es) (list (appended_all ex vs)) h₁ d
            (HoldsAll-from ex h₁ h.next (suc m.cur) es (appended_all ex vs) l new))
          l hs
    add_value-added k (object_value ms) m h d =
        let n : MapObjectEncoder ex = record { fields = h.next; cur = h.next } in
        nested-Step ex m.cur k h (add_value ex k (object_value ms) m h) d (filled ex ms empty)
          (add_members-filled ms n (store ex m.cur k (map_at h.next) (make ex h)) empty)

    add_members-filled :
        (ms : Members ex) (m : MapObjectEncoder ex) (h : Heap ex) (d : Dict ex)
        → Step ex m.cur h d (add_members ex ms m h).1 (filled ex ms d)
    add_members-filled end m h d = λ l hs. (Keeps→Spares ex m.cur h h (Keeps-refl ex h), hs)
    add_members-filled (member k v ms) m h d =
        let h₁ = add_value ex k v m h in
        let d₁ = with_entry ex k (added ex v) d in
        Step-trans ex m.cur h h₁ (add_members ex ms m h₁).1 d d₁ (filled ex ms d₁)
          (add_value-added k v m h d) (add_members-filled ms m h₁ d₁)
    add_members-filled (binary_member k s ms) m h d =
        let h₁ = store ex m.cur k (leaf (byte_slice s)) h in
        let d₁ = with_entry ex k (plain (byte_slice s)) d in
        Step-trans ex m.cur h h₁ (add_members ex ms m h₁).1 d d₁ (filled ex ms d₁)
          (store-Step ex m.cur k (leaf (byte_slice s)) (plain (byte_slice s)) h d refl)
          (add_members-filled ms m h₁ d₁)
    add_members-filled (reflected_member k r ms) m h d =
        let h₁ = store ex m.cur k (leaf (reflected r)) h in
        let d₁ = with_entry ex k (plain (reflected r)) d in
        Step-trans ex m.cur h h₁ (add_members ex ms m h₁).1 d d₁ (filled ex ms d₁)
          (store-Step ex m.cur k (leaf (reflected r)) (plain (reflected r)) h d refl)
          (add_members-filled ms m h₁ d₁)
    add_members-filled (namespace k ms) m h d =
        nested-Step ex m.cur k h (add_members ex (namespace k ms) m h).1 d (filled ex ms empty) (
          add_members-filled ms (record m { cur = h.next })
            (store ex m.cur k (map_at h.next) (make ex h)) empty)

  -- The fields of a new encoder, after the calls of any marshaler, hold what the calls mean: an
  -- entry for each key with the value given last, nested objects and arrays in full, and all that
  -- follows a namespace in the map of that namespace. Every map in them is new, each one within
  -- maps made before it, so that none contains itself, and the maps that were there before are as
  -- they were.
  pub add_members-new_map_object_encoder :
      (ms : Members ex) (h : Heap ex)
      → let (m, h₁) = new_map_object_encoder ex h in
        let (m₁, h₂) = add_members ex ms m h₁ in
        Holds ex h₂ h.next (map_at m₁.fields) (dict (filled ex ms empty))
        × ((a : ℕ) → a < h.next → h₂.maps a ≡ h.maps a)
  unfolding append_value added
  add_members-new_map_object_encoder ms h =
      let ((le, same), held) = append_value-appended (object_value ms) h in
      (held, λ a l. same a (omega arith) l)
