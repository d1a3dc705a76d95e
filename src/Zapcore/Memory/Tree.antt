-- ===== src/Zapcore/Memory/Tree.antt =====
-- What a memory encoder is meant to keep: the calls of a marshaler as one nested value, with no
-- addresses; and when the maps of a heap hold such a value.
use nanozap.Base.{ℕ, suc, ◌≤◌, ◌<◌, ◌≡◌, List, [], ◌∷◌, if◌then◌else◌}
use nanozap.Base.Bytes.{bytes_eq}
use nanozap.Zapcore.Encoder.{
  Externals, bits64, int_value, Value, primitive, time_value, duration_value, array_value,
  object_value, Values, nil, cons, cons_reflected, Members, end, member, binary_member,
  reflected_member, namespace,
}
use nanozap.Zapcore.Memory.{
  Leaf, scalar, byte_slice, duration, reflected, Stored, leaf, slice, map_at, Elems, no_elems, elem,
  Map, Heap, add_leaf, append_leaf,
}

module _ (ex : Externals) where
  mutual
    pub data Tree : Type 0 where
      plain : Leaf ex → Tree
      list : Trees → Tree
      dict : Dict → Tree

    pub data Trees : Type 0 where
      no_trees : Trees
      tree_then : Tree → Trees → Trees

    pub data Dict : Type 0 where
      empty : Dict
      entry_then : List ℕ → Tree → Dict → Dict

  unfoldable pub with_entry : List ℕ → Tree → Dict → Dict
  with_entry k t empty = entry_then k t empty
  with_entry k t (entry_then k' t' d) =
      let rest = with_entry k t d in
      if bytes_eq k k' then entry_then k' t d else entry_then k' t' rest

  -- A later value of a key replaces an earlier one, and all that follows a namespace is in it.
  unfoldable mutual
    pub appended : Value ex → Tree
    appended (primitive p) = plain (append_leaf ex p)
    appended (time_value t) = plain (scalar (int_value bits64 t))
    appended (duration_value d) = plain (duration d)
    appended (array_value vs) = list (appended_all vs)
    appended (object_value ms) = dict (filled ms empty)

    pub appended_all : Values ex → Trees
    appended_all nil = no_trees
    appended_all (cons v vs) = tree_then (appended v) (appended_all vs)
    appended_all (cons_reflected r vs) = tree_then (plain (reflected r)) (appended_all vs)

    pub added : Value ex → Tree
    added (primitive p) = plain (add_leaf ex p)
    added (time_value t) = plain (scalar (int_value bits64 t))
    added (duration_value d) = plain (duration d)
    added (array_value vs) = list (appended_all vs)
    added (object_value ms) = dict (filled ms empty)

    pub filled : Members ex → Dict → Dict
    filled end d = d
    filled (member k v ms) d = filled ms (with_entry k (added v) d)
    filled (binary_member k s ms) d = filled ms (with_entry k (plain (byte_slice s)) d)
    filled (reflected_member k r ms) d = filled ms (with_entry k (plain (reflected r)) d)
    filled (namespace k ms) d = with_entry k (dict (filled ms empty)) d

  -- The stored value stands for the tree, and every map it leads to lies at an address from `lo`
  -- on, below the free ones, and above the map that it is in.
  unfoldable mutual
    pub Holds : Heap ex → ℕ → Stored ex → Tree → Type 0
    Holds h lo (leaf x) (plain y) = x ≡ y
    Holds h lo (slice es) (list ts) = HoldsAll h lo es ts
    Holds h lo (map_at a) (dict d) = (lo ≤ a) × (a < h.next) × HoldsDict h (suc a) (h.maps a) d
    Holds h lo s t = ⊥

    pub HoldsAll : Heap ex → ℕ → Elems ex → Trees → Type 0
    HoldsAll h lo no_elems no_trees = Unit
    HoldsAll h lo (elem s es) (tree_then t ts) = Holds h lo s t × HoldsAll h lo es ts
    HoldsAll h lo es ts = ⊥

    pub HoldsDict : Heap ex → ℕ → Map ex → Dict → Type 0
    HoldsDict h lo [] empty = Unit
    HoldsDict h lo ((k, s) ∷ m) (entry_then k' t d) = (k ≡ k') × Holds h lo s t × HoldsDict h lo m d
    HoldsDict h lo m d = ⊥
