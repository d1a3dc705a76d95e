-- ===== src/Zapcore/Json/RoundTrip/Calls.antt =====
-- The calls that `EncodeEntry` makes on the encoder, beside the calls of one object.
use mathlib.Core.Path.{subst⁻¹}
use nanozap.Base.{
  ℕ, zero, suc, ◌≤◌, ◌≡◌, refl, ap, sym, ◌∙◌, Bool, true, List, [], ◌∷◌, ◌++◌, append_assoc, length,
  arith, ltb, ◌==◌, if◌then◌else◌, Bool-cases, inl, inr,
}
use nanozap.Base.Int.{ℤ}
use nanozap.Buffer.{Buffer, len, append_string}
use nanozap.Zapcore.Level
use nanozap.Zapcore.Entry.{Entry}
use nanozap.Zapcore.Encoder.{
  Externals, EncoderConfig, Primitive, string_value, Value, primitive, time_value, uint_value,
  bits64, Members, end, member, binary_member, reflected_member, namespace, append_members,
}
use nanozap.Zapcore.Json.{
  JsonEncoder, on_buf, append_primitive, append_primitives, append_with, add_element_separator,
  append_value, add_key, add_members, close_namespaces, add_entry_members, default_line_ending,
}
use nanozap.Zapcore.Json.Printer.{
  print_members, opened_value, opened_members, sep, print_key, print_primitive,
}
use nanozap.Zapcore.Json.Printed.{PrintsSolid, is_first, members-at}
use nanozap.Zapcore.Json.Printed.Steps.{at, primitive-at, key-at, with_calls, longer}
use nanozap.Zapcore.Json.Printed.Solid.{is_first-last, primitive-IsSolid, IsSolid-after}
use nanozap.Zapcore.Json.RoundTrip.Context.{context-at}
use nanozap.Zapcore.Json.Meaning.{or_string, when_key, entry_members}
use nanozap.Zapcore.Json.Parsed.Lists.{closers}

-- The line ending that a configuration asks for.
abbrev pub line_ending : {ex : Externals} → EncoderConfig ex → List ℕ
line_ending {ex} cfg =
    if length cfg.line_ending == 0 then default_line_ending ex else cfg.line_ending

add_members-append :
    (ex : Externals) (ms ns : Members ex) (enc : JsonEncoder ex)
    → add_members ex (append_members ex ms ns) enc ≡ add_members ex ns (add_members ex ms enc)
unfolding append_members add_members
add_members-append ex end ns enc = refl
add_members-append ex (member k v ms) ns enc = add_members-append ex ms ns _
add_members-append ex (binary_member k v ms) ns enc = add_members-append ex ms ns _
add_members-append ex (reflected_member k r ms) ns enc = add_members-append ex ms ns _
add_members-append ex (namespace k ms) ns enc = add_members-append ex ms ns _

-- A member with a key that may not be set.
add_when_key :
    (ex : Externals) (cfg : EncoderConfig ex) (key : List ℕ) (v : Value ex) (ms : Members ex)
    (enc : JsonEncoder ex)
    → add_members ex (if length key == 0 then ms else member key v ms) enc
      ≡ add_members ex ms (if length key == 0 then enc else append_value ex v (add_key ex key enc))
unfolding add_members
add_when_key ex cfg key v ms enc = elim (Bool-cases (length key == 0)) [
  | inl e ↦ rw e refl
  | inr e ↦ rw e refl
]

-- The braces at the end.
closers-cons : (n : ℕ) (t : List ℕ) → b'}' ∷ closers n t ≡ closers n (b'}' ∷ t)
unfolding closers
closers-cons zero t = refl
closers-cons (suc n) t = closers-cons n (b'}' ∷ t)

pub close_namespaces-closers :
    (ex : Externals) (n : ℕ) (b t : List ℕ) → close_namespaces ex n b ++ t ≡ b ++ closers n t
unfolding close_namespaces closers
close_namespaces-closers ex zero b t = refl
close_namespaces-closers ex (suc n) b t =
    close_namespaces-closers ex n (b ++ b'}' ∷ []) t
    ∙ append_assoc b (b'}' ∷ []) (closers n t)
    ∙ ap (λ t. b ++ t) (closers-cons n t)

module _ (ex : Externals) (solid : PrintsSolid ex) (cfg : EncoderConfig ex) (spaced : Bool) where
  abbrev state : Buffer → ℕ → JsonEncoder ex
  state = at ex cfg spaced

  level_call :
      (calls : List (Primitive ex)) (s : List ℕ) (b : Buffer) (n : ℕ)
      → length calls ≤ 1
      → append_with ex calls (string_value s) (state b n)
        ≡ append_primitive ex (or_string ex cfg s calls) (state b n)
  unfolding append_primitives
  level_call [] s b n h =
      let same : (len b == len b) ≡ true = ground arith in
      with_calls ex [] (string_value s) (state b n) (state b n) refl ∙ rw same refl
  level_call (p ∷ []) s b n h =
      let text = sep ex cfg spaced (is_first ex b) ++ print_primitive ex cfg spaced p in
      let text-IsSolid =
        IsSolid-after ex (sep ex cfg spaced (is_first ex b)) (primitive-IsSolid ex solid p []) in
      let added = primitive-at ex cfg spaced p (is_first ex b) b n refl in
      with_calls ex (p ∷ []) (string_value s) (state b n) (state (b ++ text) n) added
      ∙ rw (longer ex b text-IsSolid) (sym added)
  level_call (p ∷ q ∷ ps) s b n h = absurd (omega arith)

  level_key_call :
      (key : List ℕ) (calls : List (Primitive ex)) (s : List ℕ) (b : Buffer) (n : ℕ)
      → length calls ≤ 1
      → append_with ex calls (string_value s) (add_key ex key (state b n))
        ≡ append_primitive ex (or_string ex cfg s calls) (add_key ex key (state b n))
  level_key_call key calls s b n h =
      let text = sep ex cfg spaced (is_first ex b) ++ print_key ex cfg spaced key in
      subst⁻¹
        (λ e.
          append_with ex calls (string_value s) e
          ≡ append_primitive ex (or_string ex cfg s calls) e)
        (key-at ex cfg spaced key (is_first ex b) b n refl) (level_call calls s (b ++ text) n h)

  -- `EncodeEntry` before the context.
  add_entry_members-members :
      (dl : ℤ → List ℕ) (ent : Entry) (ms : Members ex) (b : Buffer) (n : ℕ)
      → length (cfg.encode_level ent.level) ≤ 1
      → add_members ex ms (add_entry_members ex dl ent (state b n))
        ≡ add_members ex (entry_members ex cfg dl ent ms) (state b n)
  unfolding add_entry_members append_value
  add_entry_members-members dl ent ms b n h =
      let calls = cfg.encode_level ent.level in
      let name = Level.string dl ent.level in
      let level : Value ex = primitive (or_string ex cfg name calls) in
      let message : Value ex = primitive (string_value ent.message) in
      let req_id : Value ex = primitive (uint_value bits64 ent.req_id) in
      let with_id = when_key ex cfg cfg.req_id_key req_id ms in
      let with_message = when_key ex cfg cfg.message_key message with_id in
      let with_time = when_key ex cfg cfg.time_key (time_value ent.time) with_message in
      let if_level : JsonEncoder ex → JsonEncoder ex =
        λ e. if length cfg.level_key == 0 then state b n else e in
      let e₁ =
        if_level
          (append_with ex calls (string_value name) (add_key ex cfg.level_key (state b n))) in
      sym (
        add_when_key ex cfg cfg.time_key (time_value ent.time) with_message e₁
        ∙ add_when_key ex cfg cfg.message_key message with_id _
        ∙ add_when_key ex cfg cfg.req_id_key req_id ms _)
      ∙ ap (λ e. add_members ex with_time (if_level e))
          (level_key_call cfg.level_key calls name b n h)
      ∙ sym (add_when_key ex cfg cfg.level_key level with_time (state b n))

  opened-when_key :
      (key : List ℕ) (v : Value ex) (ms : Members ex)
      → opened_value ex cfg spaced v ≡ 0
      → opened_members ex cfg spaced (when_key ex cfg key v ms) ≡ opened_members ex cfg spaced ms
  unfolding opened_members
  opened-when_key key v ms h = elim (Bool-cases (length key == 0)) [
    | inl e ↦ rw e refl
    | inr e ↦ rw e (omega arith)
  ]

  opened-entry_members :
      (dl : ℤ → List ℕ) (ent : Entry)
      → opened_members ex cfg spaced (entry_members ex cfg dl ent end) ≡ 0
  unfolding opened_members
  opened-entry_members dl ent =
      opened-when_key cfg.level_key _ _ refl
      ∙ opened-when_key cfg.time_key (time_value ent.time) _ refl
      ∙ opened-when_key cfg.message_key (primitive (string_value ent.message)) _ refl
      ∙ opened-when_key cfg.req_id_key (primitive (uint_value bits64 ent.req_id)) end refl

  -- The members of an entry open no namespace.
  add_entry_members-at :
      (dl : ℤ → List ℕ) (ent : Entry) (b : Buffer) (n : ℕ)
      → length (cfg.encode_level ent.level) ≤ 1
      → is_first ex b ≡ true
      → add_entry_members ex dl ent (state b n)
        ≡ state (b ++ print_members ex cfg spaced true (entry_members ex cfg dl ent end)) n
  unfolding add_members
  add_entry_members-at dl ent b n one h =
      add_entry_members-members dl ent end b n one
      ∙ members-at ex solid cfg spaced (entry_members ex cfg dl ent end) true b n h
      ∙ ap (state _) (omega (arith, opened-entry_members dl ent))

  -- The encoder's calls, all of them in one run.
  pub encoded :
      (dl : ℤ → List ℕ) (ent : Entry) (ctx fields : Members ex) (n : ℕ)
      → length (cfg.encode_level ent.level) ≤ 1
      → n ≡ opened_members ex cfg spaced ctx
      → add_members ex fields (
          let text = print_members ex cfg spaced true ctx in
          let final = add_entry_members ex dl ent (state (b'{' ∷ []) n) in
          if ltb 0 (len text)
          then on_buf ex (append_string text) (add_element_separator ex final)
          else final)
        ≡ (let all = entry_members ex cfg dl ent (append_members ex ctx fields) in
            state (b'{' ∷ print_members ex cfg spaced true all) (opened_members ex cfg spaced all))
  encoded dl ent ctx fields n one eq =
      let text = print_members ex cfg spaced true ctx in
      let behind : JsonEncoder ex → JsonEncoder ex = λ e.
        if ltb 0 (len text)
        then on_buf ex (append_string text) (add_element_separator ex e)
        else e in
      let brace : Buffer = b'{' ∷ [] in
      let more = append_members ex ctx fields in
      let all = entry_members ex cfg dl ent more in
      let b = brace ++ print_members ex cfg spaced true (entry_members ex cfg dl ent end) in
      let start : (n : ℕ) → add_entry_members ex dl ent (state brace n) ≡ state b n =
        λ n. add_entry_members-at dl ent brace n one (is_first-last ex [] b'{') in
      let context : state (b ++ print_members ex cfg spaced (is_first ex b) ctx) n
          ≡ add_members ex ctx (state b 0) =
        ap (state _) (omega arith)
        ∙ sym (members-at ex solid cfg spaced ctx (is_first ex b) b 0 refl) in
      ap (λ e. add_members ex fields (behind e)) (start n)
      ∙ ap (add_members ex fields) (context-at ex cfg spaced ctx b n ∙ context)
      ∙ sym (add_members-append ex ctx fields (state b 0))
      ∙ ap (add_members ex more) (sym (start 0))
      ∙ add_entry_members-members dl ent more brace 0 one
      ∙ members-at ex solid cfg spaced all true brace 0 (is_first-last ex [] b'{')
      ∙ ap (state _) (omega arith)
