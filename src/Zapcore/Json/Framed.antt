-- ===== src/Zapcore/Json/Framed.antt =====
-- zapcore/json_encoder.go: the braces, the context and the line ending of an encoded entry.
use nanozap.Base.{
  ℕ, ◌≡◌, refl, ap, sym, ◌∙◌, false, List, [], ◌∷◌, ◌++◌, append-nil, length, ltb, ◌==◌,
  if◌then◌else◌, arith, Bool-cases, inl, inr,
}
use nanozap.Base.Int.{ℤ}
use nanozap.Buffer.{Buffer, len}
use nanozap.Zapcore.Level
use nanozap.Zapcore.Entry.{Entry}
use nanozap.Zapcore.Encoder.{Externals, int_value, string_value, uint_value, bits64, Members}
use nanozap.Zapcore.Json.{
  JsonEncoder, add_element_separator, add_key, append_primitive, append_with, append_time,
  add_members, close_namespaces, add_entry_members, encode_entry, default_line_ending,
}
use nanozap.Zapcore.Json.Grows.{
  Extends, same, then_more, separator_more, key_more, append_more, with_more, close_more,
  members_more, Grows,
}

empty_of : (b : Buffer) → ltb 0 (len b) ≡ false → b ≡ []
empty_of [] h = refl
empty_of (x ∷ b) h = ground arith

module _ (ex : Externals) where
  set_more :
      (key : List ℕ) (f : JsonEncoder ex → JsonEncoder ex)
      → ((x : JsonEncoder ex) → Grows ex x (f x))
      → (e : JsonEncoder ex) → Grows ex e (if length key == 0 then e else f e)
  set_more key f g e = elim (Bool-cases (length key == 0)) [
    | inl q ↦ rw q (same e.buf)
    | inr q ↦ rw q (g e)
  ]

  finish_more :
      (fields : Members ex) (c : JsonEncoder ex)
      → Extends c.buf (
          close_namespaces ex
            (add_members ex fields c).open_namespaces
            (add_members ex fields c).buf)
  finish_more fields c =
      let c' = add_members ex fields c in
      then_more (members_more ex fields c) (close_more ex c'.open_namespaces c'.buf)

  module _ (decimal : ℤ → List ℕ) where
    entry_more :
        (ent : Entry) (e : JsonEncoder ex) → Grows ex e (add_entry_members ex decimal ent e)
    unfolding add_entry_members append_time
    entry_more ent e =
        let cfg = e.config in
        let f₁ : JsonEncoder ex → JsonEncoder ex = λ x.
          append_with ex (cfg.encode_level ent.level)
            (string_value (Level.string decimal ent.level)) (add_key ex cfg.level_key x) in
        let f₂ : JsonEncoder ex → JsonEncoder ex =
          λ x. append_time ex ent.time (add_key ex cfg.time_key x) in
        let f₃ : JsonEncoder ex → JsonEncoder ex =
          λ x. append_primitive ex (string_value ent.message) (add_key ex cfg.message_key x) in
        let f₄ : JsonEncoder ex → JsonEncoder ex =
          λ x. append_primitive ex (uint_value bits64 ent.req_id) (add_key ex cfg.req_id_key x) in
        let e₁ = if length cfg.level_key == 0 then e else f₁ e in
        let e₂ = if length cfg.time_key == 0 then e₁ else f₂ e₁ in
        let e₃ = if length cfg.message_key == 0 then e₂ else f₃ e₂ in
        then_more
          (set_more cfg.level_key f₁
            (λ x. then_more (key_more ex cfg.level_key x) (
              with_more ex (cfg.encode_level ent.level)
                (string_value (Level.string decimal ent.level)) (add_key ex cfg.level_key x)))
            e)
          (then_more
            (set_more cfg.time_key f₂
              (λ x. then_more (key_more ex cfg.time_key x) (
                with_more ex ((add_key ex cfg.time_key x).config.encode_time ent.time)
                  (int_value bits64 ent.time) (add_key ex cfg.time_key x)))
              e₁)
            (then_more
              (set_more cfg.message_key f₃
                (λ x.
                  then_more (key_more ex cfg.message_key x)
                    (append_more ex (string_value ent.message) (add_key ex cfg.message_key x)))
                e₂)
              (set_more cfg.req_id_key f₄
                (λ x.
                  then_more (key_more ex cfg.req_id_key x)
                    (append_more ex (uint_value bits64 ent.req_id) (add_key ex cfg.req_id_key x)))
                e₃)))

    -- An encoded entry begins with an opening brace, has the bytes of the encoder's context in it
    -- as they are, and ends with a closing brace and the line ending, a line feed where none is
    -- set.
    pub encode_entry-framed :
        (enc : JsonEncoder ex) (ent : Entry) (fields : Members ex)
        → (before after : List ℕ) × (encode_entry ex decimal enc ent fields
            ≡ ((((b'{' ∷ before) ++ enc.buf) ++ after) ++ b'}' ∷ [])
              ++ (if length enc.config.line_ending == 0
                  then default_line_ending ex
                  else enc.config.line_ending))
    unfolding encode_entry
    encode_entry-framed enc ent fields =
        let opened : JsonEncoder ex = record enc { buf = b'{' ∷ [] } in
        let final = add_entry_members ex decimal ent opened in
        let start = entry_more ent opened in
        let ending =
          if length enc.config.line_ending == 0
          then default_line_ending ex
          else enc.config.line_ending in
        elim (Bool-cases (ltb 0 (len enc.buf))) [
          | inl q ↦
              let separated = add_element_separator ex final in
              let start' = then_more start (separator_more ex final) in
              let context : JsonEncoder ex = record separated { buf = separated.buf ++ enc.buf } in
              let rest = finish_more fields context in
              rw q (
                start'.more,
                rest.more,
                ap (λ b. (b ++ b'}' ∷ []) ++ ending)
                    (rest.eq ∙ ap (λ b. (b ++ enc.buf) ++ rest.more) start'.eq),
              )
          | inr q ↦
              let rest = finish_more fields final in
              let alone : final.buf ≡ (b'{' ∷ start.more) ++ enc.buf =
                start.eq
                ∙ sym (append-nil (b'{' ∷ start.more))
                ∙ ap (λ b. (b'{' ∷ start.more) ++ b) (sym (empty_of enc.buf q)) in
              rw q (
                start.more,
                rest.more,
                ap (λ b. (b ++ b'}' ∷ []) ++ ending) (rest.eq ∙ ap (λ b. b ++ rest.more) alone),
              )
        ]
