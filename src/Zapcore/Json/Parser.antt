-- ===== src/Zapcore/Json/Parser.antt =====
-- A reader of JSON texts, after RFC 8259. A number, `true`, `false` and `null` are kept as their
-- text; the members of an object are kept in order, with keys that may repeat.
pub mod Literals
pub mod Stream
pub mod Tokens
use nanozap.Base.{
  ℕ, zero, suc, ◌&&◌, ◌||◌, Bool, true, false, Option, none, some, List, [], ◌∷◌, ◌==◌, leb, ◌*◌,
  length, if◌then◌else◌,
}
use nanozap.Base.Bytes.{bytes, bytes_eq}
use nanozap.Zapcore.Json.Reader.{plain, read_string}

mutual
  pub data Json : Type 0 where
    string : List ℕ → Json
    literal : List ℕ → Json
    array : Elements → Json
    object : Entries → Json

  pub data Elements : Type 0 where
    no_elements : Elements
    element : Json → Elements → Elements

  pub data Entries : Type 0 where
    no_entries : Entries
    entry : List ℕ → Json → Entries → Entries

abbrev pub is_space : ℕ → Bool
is_space c = c == b' ' || c == 9 || c == 10 || c == 13

unfoldable pub skip_space : List ℕ → List ℕ
skip_space [] = []
skip_space (c ∷ t) = let rest = skip_space t in if is_space c then rest else c ∷ t

-- The bytes that a literal ends before.
abbrev pub is_delimiter : ℕ → Bool
is_delimiter c =
    is_space c
    || c == b','
    || c == b':'
    || c == b'['
    || c == b']'
    || c == b'{'
    || c == b'}'
    || c == b'"'

-- A text up to its first delimiter, and the rest.
unfoldable pub span_token : List ℕ → List ℕ × List ℕ
span_token [] = ([], [])
span_token (c ∷ t) =
    let (token, rest) = span_token t in if is_delimiter c then ([], c ∷ t) else (c ∷ token, rest)

-- Where a reader of numbers stands, and whether a number may end there.
pub data Numeral : Type 0 where
  at_start : Numeral
  after_minus : Numeral
  after_zero : Numeral
  in_integer : Numeral
  after_point : Numeral
  in_fraction : Numeral
  after_e : Numeral
  after_sign : Numeral
  in_exponent : Numeral

abbrev pub is_digit : ℕ → Bool
is_digit c = leb b'0' c && leb c b'9'

abbrev first_digit : ℕ → Option Numeral
first_digit c = if c == b'0' then some after_zero else if is_digit c then some in_integer else none

abbrev past_integer : ℕ → Option Numeral
past_integer c =
    if c == b'.' then some after_point else if c == b'e' || c == b'E' then some after_e else none

unfoldable pub next_numeral : Numeral → ℕ → Option Numeral
next_numeral at_start c = if c == b'-' then some after_minus else first_digit c
next_numeral after_minus c = first_digit c
next_numeral after_zero c = past_integer c
next_numeral in_integer c = if is_digit c then some in_integer else past_integer c
next_numeral after_point c = if is_digit c then some in_fraction else none
next_numeral in_fraction c =
    if is_digit c then some in_fraction else if c == b'e' || c == b'E' then some after_e else none
next_numeral after_e c =
    if c == b'+' || c == b'-'
    then some after_sign
    else if is_digit c
    then some in_exponent
    else none
next_numeral after_sign c = if is_digit c then some in_exponent else none
next_numeral in_exponent c = if is_digit c then some in_exponent else none

abbrev pub may_end : Numeral → Bool
may_end after_zero = true
may_end in_integer = true
may_end in_fraction = true
may_end in_exponent = true
may_end st = false

unfoldable pub reads_number : Numeral → List ℕ → Bool
reads_number st [] = may_end st
reads_number st (c ∷ t) = elim (next_numeral st c) [ none ↦ false | some st' ↦ reads_number st' t ]

abbrev pub is_number : List ℕ → Bool
is_number t = reads_number at_start t

unfoldable pub is_literal : List ℕ → Bool
is_literal t =
    bytes_eq t (bytes "true")
    || bytes_eq t (bytes "false")
    || bytes_eq t (bytes "null")
    || is_number t

abbrev pub after {ℓ κ} :
    {A : Type ℓ} {B : Type κ} → Option (A × List ℕ) → (A → List ℕ → Option B) → Option B
after none k = none
after (some (a, rest)) k = k a rest

abbrev pub behind {ℓ} : {B : Type ℓ} → Option (List ℕ) → (List ℕ → Option B) → Option B
behind none k = none
behind (some t) k = k t

unfoldable pub parse_literal : List ℕ → Option (Json × List ℕ)
parse_literal t =
    let (token, rest) = span_token t in
    if is_literal token then some (literal token, rest) else none

abbrev pub starts_with : ℕ → List ℕ → Bool
starts_with c [] = false
starts_with c (x ∷ t) = x == c

abbrev pub tail : List ℕ → List ℕ
tail [] = []
tail (c ∷ t) = t

-- What goes before an element or a member that is not the first.
abbrev pub separator : Bool → List ℕ → Option (List ℕ)
separator true t = some t
separator false t = if starts_with b',' t then some (tail t) else none

-- A key and its colon.
unfoldable pub parse_key : List ℕ → Option (List ℕ × List ℕ)
parse_key t =
    let s = skip_space t in
    if starts_with b'"' s
    then (after (read_string plain (tail s)) λ k rest.
        if starts_with b':' (skip_space rest) then some (k, tail (skip_space rest)) else none)
    else none

-- A value whose first byte is there: with what an array or an object behind that byte would be.
abbrev pub value_from :
    List ℕ → Option (Elements × List ℕ) → Option (Entries × List ℕ) → Option (Json × List ℕ)
value_from t elements entries =
    if starts_with b'"' t
    then (after (read_string plain (tail t)) λ s rest. some (string s, rest))
    else if starts_with b'[' t
    then (after elements λ es rest. some (array es, rest))
    else if starts_with b'{' t
    then (after entries λ ms rest. some (object ms, rest))
    else parse_literal t

-- Each call costs a unit of fuel.
unfoldable mutual
  pub parse_value : ℕ → List ℕ → Option (Json × List ℕ)
  parse_value zero t = none
  parse_value (suc f) t =
      let s = skip_space t in
      value_from s (parse_elements f true (tail s)) (parse_entries f true (tail s))

  pub parse_elements : ℕ → Bool → List ℕ → Option (Elements × List ℕ)
  parse_elements zero first t = none
  parse_elements (suc f) first t =
      let s = skip_space t in
      if starts_with b']' s
      then some (no_elements, tail s)
      else behind (separator first s) λ u.
        after (parse_value f u)
          λ v rest. after (parse_elements f false rest) λ es end. some (element v es, end)

  pub parse_entries : ℕ → Bool → List ℕ → Option (Entries × List ℕ)
  parse_entries zero first t = none
  parse_entries (suc f) first t =
      let s = skip_space t in
      if starts_with b'}' s
      then some (no_entries, tail s)
      else behind (separator first s) λ u. after (parse_key u) λ k colon.
        after (parse_value f colon)
          λ v rest. after (parse_entries f false rest) λ ms end. some (entry k v ms, end)

-- A call costs a unit of fuel, and there are at most two for each byte.
unfoldable pub read_json : List ℕ → Option (Json × List ℕ)
read_json t = parse_value (suc (2 * length t)) t
