-- ===== src/Zapcore/Memory.antt =====
-- zapcore/memory_encoder.go: the encoder that keeps what it is given in Go maps. Maps are shared,
-- so they live on a heap: `map_at a` is the map at the address a, and a map is a list of its keys
-- in the order of their first assignment (Go gives no order). A value of another type is a `Leaf`.
-- An encoder is the address of all its fields and that of the map it is writing to; the methods
-- that Go gives a copy of the encoder write to the same map.
pub mod Tree
pub mod Kept
mod Tests
use nanozap.Base.{ℕ, suc, ◌==◌, Bool, List, [], ◌∷◌, if◌then◌else◌}
use nanozap.Base.Int.{ℤ, pos, negsuc}
use nanozap.Base.Bytes.{bytes_eq}
use nanozap.Zapcore.Encoder.{
  Externals, bits64, Primitive, byte_string_value, string_value, int_value, Value, primitive,
  time_value, duration_value, array_value, object_value, Values, nil, cons, cons_reflected, Members,
  end, member, binary_member, reflected_member, namespace,
}

module _ (ex : Externals) where
  pub data Leaf : Type 0 where
    scalar : Primitive ex → Leaf
    byte_slice : List ℕ → Leaf
    duration : ℤ → Leaf
    reflected : ex.Reflected → Leaf

  mutual
    pub data Stored : Type 0 where
      leaf : Leaf → Stored
      slice : Elems → Stored
      map_at : ℕ → Stored

    pub data Elems : Type 0 where
      no_elems : Elems
      elem : Stored → Elems → Elems

  abbrev pub Map : Type 0
  Map = List (List ℕ × Stored)

  -- `m[k] = v`
  unfoldable pub assign : List ℕ → Stored → Map → Map
  assign k v [] = (k, v) ∷ []
  assign k v ((k', v') ∷ m) =
      let rest = assign k v m in if bytes_eq k k' then (k', v) ∷ m else (k', v') ∷ rest

  -- The addresses from `next` on are free.
  pub record Heap : Type 0 where
    pub next : ℕ
    pub maps : ℕ → Map

  abbrev pub put : ℕ → Map → (ℕ → Map) → ℕ → Map
  put a m maps b = if b == a then m else maps b

  abbrev pub store : ℕ → List ℕ → Stored → Heap → Heap
  store a k v h = record h { maps = put a (assign k v (h.maps a)) h.maps }

  -- `make(map[string]interface{})`, at the address that was free.
  abbrev pub make : Heap → Heap
  make h = record { next = suc h.next; maps = put h.next [] h.maps }

  pub record MapObjectEncoder : Type 0 where
    pub fields : ℕ
    pub cur : ℕ

  abbrev pub new_map_object_encoder : Heap → MapObjectEncoder × Heap
  new_map_object_encoder h = (record { fields = h.next; cur = h.next }, make h)

  -- The methods of `MapObjectEncoder` keep a byte string as a string, those of `sliceArrayEncoder`
  -- as bytes.
  abbrev pub add_leaf : Primitive ex → Leaf
  add_leaf (byte_string_value s) = scalar (string_value s)
  add_leaf p = scalar p

  abbrev pub append_leaf : Primitive ex → Leaf
  append_leaf (byte_string_value s) = byte_slice s
  append_leaf p = scalar p

  unfoldable mutual
    -- What a call of `sliceArrayEncoder` appends.
    pub append_value : Value ex → Heap → Stored × Heap
    append_value (primitive p) h = (leaf (append_leaf p), h)
    append_value (time_value t) h = (leaf (scalar (int_value bits64 t)), h)
    append_value (duration_value d) h = (leaf (duration d), h)
    append_value (array_value vs) h = let (es, h₁) = append_values vs h in (slice es, h₁)
    append_value (object_value ms) h =
        let (m, h₁) = new_map_object_encoder h in
        let (m₁, h₂) = add_members ms m h₁ in (map_at m₁.fields, h₂)

    pub append_values : Values ex → Heap → Elems × Heap
    append_values nil h = (no_elems, h)
    append_values (cons v vs) h =
        let (s, h₁) = append_value v h in let (es, h₂) = append_values vs h₁ in (elem s es, h₂)
    append_values (cons_reflected r vs) h =
        let (es, h₁) = append_values vs h in (elem (leaf (reflected r)) es, h₁)

    pub add_value : List ℕ → Value ex → MapObjectEncoder → Heap → Heap
    add_value k (primitive p) m h = store m.cur k (leaf (add_leaf p)) h
    add_value k (time_value t) m h = store m.cur k (leaf (scalar (int_value bits64 t))) h
    add_value k (duration_value d) m h = store m.cur k (leaf (duration d)) h
    add_value k (array_value vs) m h =
        let (es, h₁) = append_values vs h in store m.cur k (slice es) h₁
    add_value k (object_value ms) m h =
        let (n, h₁) = new_map_object_encoder h in
        (add_members ms n (store m.cur k (map_at n.fields) h₁)).1

    pub add_members : Members ex → MapObjectEncoder → Heap → MapObjectEncoder × Heap
    add_members end m h = (m, h)
    add_members (member k v ms) m h = add_members ms m (add_value k v m h)
    add_members (binary_member k s ms) m h =
        add_members ms m (store m.cur k (leaf (byte_slice s)) h)
    add_members (reflected_member k r ms) m h =
        add_members ms m (store m.cur k (leaf (reflected r)) h)
    add_members (namespace k ms) m h =
        add_members ms (record m { cur = h.next }) (store m.cur k (map_at h.next) (make h))
