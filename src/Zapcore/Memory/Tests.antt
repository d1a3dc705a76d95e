-- ===== src/Zapcore/Memory/Tests.antt =====
-- A memory encoder run on concrete calls.
use nanozap.Base.{◌<◌, ℕ, ◌≡◌, refl, true, [], ◌∷◌}
use nanozap.Base.Bytes.{bytes}
use nanozap.Zapcore.Encoder.{
  primitive, bool_value, string_value, byte_string_value, object_value, array_value, nil, cons,
  Members, end, member, namespace,
}
use nanozap.Zapcore.Memory.{
  scalar, byte_slice, leaf, slice, map_at, elem, no_elems, Heap, new_map_object_encoder,
  add_members, assign,
}
use nanozap.Zapcore.Memory.Tree.{dict, empty, filled, Holds}
use nanozap.Zapcore.Memory.Kept.{add_members-new_map_object_encoder}
use nanozap.Zapcore.Encoder.Sample.{library}

-- A key given twice, an array with an object, and a namespace.
abbrev calls : Members library
calls = member (bytes "a") (primitive (bool_value true)) (
    member (bytes "b")
      (array_value (cons (primitive (byte_string_value (bytes "x"))) (cons (object_value end) nil)))
      (member (bytes "a") (primitive (byte_string_value (bytes "y")))
        (namespace (bytes "n") (member (bytes "a") (object_value end) end))))

abbrev none_made : Heap library
none_made = record { next = 0; maps = λ a. [] }

abbrev kept : Heap library
kept = let (m, h) = new_map_object_encoder library none_made in (add_members library calls m h).1

root_map :
    kept.maps 0
    ≡ (bytes "a", leaf (scalar (string_value (bytes "y"))))
      ∷ (bytes "b", slice (elem (leaf (byte_slice (bytes "x"))) (elem (map_at 1) no_elems)))
      ∷ (bytes "n", map_at 2)
      ∷ []
unfolding add_members assign
root_map = refl

named_map : kept.maps 2 ≡ (bytes "a", map_at 3) ∷ []
unfolding add_members assign
named_map = refl

add_members-new_map_object_encoder_example :
    let (m, h) = new_map_object_encoder library none_made in
    let (m₁, h₁) = add_members library calls m h in
    Holds library h₁ 0 (map_at m₁.fields) (dict (filled library calls empty))
    × ((a : ℕ) → a < 0 → h₁.maps a ≡ none_made.maps a)
add_members-new_map_object_encoder_example =
    add_members-new_map_object_encoder library calls none_made
