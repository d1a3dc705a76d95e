-- ===== src/Zapcore/Json/Parser/Stream.antt =====
-- Several JSON values, one after the other.
use nanozap.Base.{
  ℕ, zero, suc, ◌*◌, ◌<◌, ◌≡◌, refl, ap, sym, ◌∙◌, Bool, true, ◌&&◌, Option, none, some, List, [],
  ◌∷◌, ◌++◌, length, arith,
}
use nanozap.Zapcore.Json.Parser.{Json, is_space, skip_space, parse_value, read_json}

abbrev pub cons_value : Json → Option (List Json) → Option (List Json)
cons_value j none = none
cons_value j (some js) = some (j ∷ js)

-- Nothing is left, or a value and what is behind it.
abbrev pub values_from :
    List ℕ → Option (Json × List ℕ) → (List ℕ → Option (List Json)) → Option (List Json)
values_from [] value more = some []
values_from (c ∷ t) none more = none
values_from (c ∷ t) (some (j, rest)) more = cons_value j (more rest)

-- Each value costs a unit of fuel.
unfoldable pub read_values : ℕ → List ℕ → Option (List Json)
read_values zero t = none
read_values (suc f) t =
    let s = skip_space t in values_from s (read_json s) (λ rest. read_values f rest)

-- All the values of a text, of which each takes a byte.
unfoldable pub read_all : List ℕ → Option (List Json)
read_all t = read_values (suc (length t)) t

abbrev pub all_space : List ℕ → Bool
all_space [] = true
all_space (c ∷ t) = is_space c && all_space t

skip_space-append : (e t : List ℕ) → all_space e ≡ true → skip_space (e ++ t) ≡ skip_space t
unfolding skip_space
skip_space-append [] t h = refl
skip_space-append (c ∷ e) t h =
    let space : is_space c ≡ true = ground arith in
    let more : all_space e ≡ true = ground arith in rw space (skip_space-append e t more)

read_values-space :
    (f : ℕ) (e t : List ℕ) → all_space e ≡ true → read_values f (e ++ t) ≡ read_values f t
unfolding read_values
read_values-space zero e t h = refl
read_values-space (suc f) e t h =
    ap (λ s. values_from s (read_json s) (λ rest. read_values f rest)) (skip_space-append e t h)

-- The text of an object and an ending that is all space.
pub record IsLine (line : List ℕ) (j : Json) (ending : List ℕ) : Type 0 where
  pub behind : List ℕ
  pub eq : line ≡ b'{' ∷ behind
  pub reads :
      (more : List ℕ) (f : ℕ)
      → 2 * length (line ++ more) < f
      → parse_value f (line ++ more) ≡ some (j, ending ++ more)

pub read_values-line :
    {line : List ℕ} {j : Json} {ending : List ℕ} (f : ℕ) (more : List ℕ) (js : List Json)
    → IsLine line j ending
    → all_space ending ≡ true
    → read_values f more ≡ some js
    → read_values (suc f) (line ++ more) ≡ some (j ∷ js)
unfolding read_values read_json skip_space
read_values-line {line} {j} {ending} f more js l space e =
    let read : List ℕ → Option (List Json) =
      λ s. values_from s (read_json s) (λ rest. read_values f rest) in
    let text = b'{' ∷ (l.behind ++ more) in
    let value : read_json text ≡ some (j, ending ++ more) =
      ap (λ t. read_json (t ++ more)) (sym l.eq)
      ∙ l.reads more (suc (2 * length (line ++ more))) (omega arith) in
    ap (λ t. read_values (suc f) (t ++ more)) l.eq
    ∙ ap (λ o. values_from text o (λ rest. read_values f rest)) value
    ∙ ap (cons_value j) (read_values-space f ending more space ∙ e)
