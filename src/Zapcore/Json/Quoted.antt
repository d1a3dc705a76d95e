-- ===== src/Zapcore/Json/Quoted.antt =====
-- zapcore/json_encoder.go: a quoted string, and a reader of it.
pub mod Runes
pub mod Scrub
use Runes.{
  read-self_text, read-error_text, read-high, decode_rune-high, decode_rune-takes, decode_rune_self,
}
use nanozap.Base.{
  ℕ, zero, suc, ◌≤◌, ◌≡◌, refl, ap, sym, ◌∙◌, false, ◌&&◌, some, List, [], ◌∷◌, ◌++◌, append_assoc,
  append-nil, leb, ◌==◌, if◌then◌else◌, arith, inl, inr, Bool-cases, take, drop, length,
  length-drop,
}
use nanozap.Buffer.{Buffer}
use nanozap.Zapcore.Utf8.{decode_rune, rune_error}
use nanozap.Zapcore.Json.Escape.{
  safe_add_string, safe_add_loop, add_rune, self_text, error_text, quote,
}
use nanozap.Zapcore.Json.Reader.{plain, prepend, read_string, read_byte}

-- A rune of the text as UTF-8: a byte that begins no rune becomes U+FFFD.
abbrev pub rune_bytes : List ℕ → List ℕ
rune_bytes s =
    if (decode_rune s).0 == rune_error && (decode_rune s).1 == 1
    then 239 ∷ 191 ∷ 189 ∷ []
    else take (decode_rune s).1 s

-- `text` is `s` with U+FFFD for each byte that is part of no valid rune.
pub data Scrubs : List ℕ → List ℕ → Type 0 where
  done : Scrubs [] []
  rune :
      (b : ℕ) {s text : List ℕ}
      → Scrubs (drop (decode_rune (b ∷ s)).1 (b ∷ s)) text
      → Scrubs (b ∷ s) (rune_bytes (b ∷ s) ++ text)

-- What one turn of the loop appends, and how it is read.
abbrev Turn : List ℕ → Type 0
Turn s =
    (out : List ℕ) × ((buf : Buffer) → add_rune s buf ≡ ((decode_rune s).1, buf ++ out))
    × ((t : List ℕ) → read_string plain (out ++ t) ≡ prepend (rune_bytes s) (read_string plain t))

add_rune-Turn : (b : ℕ) (s : List ℕ) → Turn (b ∷ s)
unfolding add_rune
add_rune-Turn b s = elim (Bool-cases (leb 128 b)) [
  | inr low ↦
      let one = decode_rune_self b s (ground arith) in
      let other : b == rune_error ≡ false = ground arith in
      (
        self_text b,
        λ buf. rw (low, one, add_rune) refl,
        λ t. rw (one, other) (read-self_text b t (ground arith)),
      )
  | inl high ↦
      let size = (decode_rune (b ∷ s)).1 in
      elim (Bool-cases ((decode_rune (b ∷ s)).0 == rune_error && size == 1)) [
        | inl bad ↦
            let one : 1 ≡ size = ground arith in
            (
              error_text,
              λ buf. rw (high, bad, add_rune) (ap (λ n. (n, buf ++ error_text)) one),
              λ t. rw bad (read-error_text t),
            )
        | inr good ↦ (
          take size (b ∷ s),
          λ buf. rw (high, good, add_rune) refl,
          λ t. rw good (read-high (take size (b ∷ s)) t (decode_rune-high b s (ground arith))),
        )
      ]
]

-- What the loop appends, and how it is read up to a closing quote.
abbrev Appends : ℕ → List ℕ → Type 0
Appends f s =
    (text out : List ℕ) × Scrubs s text
    × ((buf : Buffer) → safe_add_loop f s buf ≡ buf ++ out)
    × ((t : List ℕ) → read_string plain (out ++ quote ∷ t) ≡ some (text, t))

safe_add_loop-Appends : (f : ℕ) (s : List ℕ) → length s ≤ f → Appends f s
unfolding safe_add_loop read_string read_byte
safe_add_loop-Appends zero [] h = ([], [], done, λ buf. sym (append-nil buf), λ t. refl)
safe_add_loop-Appends zero (b ∷ s) h = absurd (omega arith)
safe_add_loop-Appends (suc f) [] h = ([], [], done, λ buf. sym (append-nil buf), λ t. refl)
safe_add_loop-Appends (suc f) (b ∷ s) h =
    let size = (decode_rune (b ∷ s)).1 in
    let (out, adds, reads) = add_rune-Turn b s in
    let (text, out', scrubs, loop, read') =
      safe_add_loop-Appends f (drop size (b ∷ s))
        (omega (arith, length-drop size (b ∷ s), decode_rune-takes (b ∷ s))) in
    (
      rune_bytes (b ∷ s) ++ text,
      out ++ out',
      rune b scrubs,
      λ buf.
          ap (λ (r : ℕ × Buffer). safe_add_loop f (drop r.0 (b ∷ s)) r.1) (adds buf)
          ∙ loop (buf ++ out)
          ∙ append_assoc buf out out',
      λ t.
          ap (read_string plain) (append_assoc out out' (quote ∷ t))
          ∙ reads (out' ++ quote ∷ t)
          ∙ ap (prepend (rune_bytes (b ∷ s))) (read' t),
    )

-- Quoting ends, keeps what the buffer had, and never lets the string end early: whatever bytes the
-- string has and whatever follows, a JSON reader that starts behind the opening quote stops at the
-- closing one, and has then read the string, with U+FFFD for each byte that is part of no valid
-- rune.
pub safe_add_string-read :
    (s : List ℕ) (buf : Buffer)
    → (text out : List ℕ) × Scrubs s text
      × (safe_add_string s buf ≡ buf ++ out)
      × ((t : List ℕ) → read_string plain (out ++ quote ∷ t) ≡ some (text, t))
unfolding safe_add_string
safe_add_string-read s buf =
    let (text, out, scrubs, loop, reads) = safe_add_loop-Appends (length s) s (omega arith) in
    (text, out, scrubs, loop buf, reads)

-- What is appended does not depend on the buffer.
pub safe_add_string-append :
    (s : List ℕ) (buf : Buffer) → safe_add_string s buf ≡ buf ++ safe_add_string s []
unfolding safe_add_string
safe_add_string-append s buf =
    let (text, out, scrubs, loop, reads) = safe_add_loop-Appends (length s) s (omega arith) in
    loop buf ∙ ap (λ t. buf ++ t) (sym (loop []))
