-- ===== src/Zapcore/Json/Quoted/Scrub.antt =====
-- The text that a reader sees of a quoted string, as a function of the string.
use nanozap.Base.{
  ℕ, zero, suc, ◌≤◌, ◌≡◌, refl, ap, ◌∙◌, some, List, [], ◌∷◌, ◌++◌, drop, length, length-drop,
  arith,
}
use nanozap.Zapcore.Utf8.{decode_rune}
use nanozap.Zapcore.Json.Escape.{quote, safe_add_string}
use nanozap.Zapcore.Json.Reader.{plain, read_string}
use nanozap.Zapcore.Json.Quoted.{Scrubs, done, rune, rune_bytes, safe_add_string-read}
use nanozap.Zapcore.Json.Quoted.Runes.{decode_rune-takes}

unfoldable pub scrub_loop : ℕ → List ℕ → List ℕ
scrub_loop zero s = []
scrub_loop (suc f) [] = []
scrub_loop (suc f) (b ∷ s) =
    rune_bytes (b ∷ s) ++ scrub_loop f (drop (decode_rune (b ∷ s)).1 (b ∷ s))

-- Each byte that is part of no valid rune is replaced by U+FFFD.
abbrev pub scrub : List ℕ → List ℕ
scrub s = scrub_loop (length s) s

scrub_loop-Scrubs : (f : ℕ) (s text : List ℕ) → length s ≤ f → Scrubs s text → text ≡ scrub_loop f s
unfolding scrub_loop
scrub_loop-Scrubs zero [] text h done = refl
scrub_loop-Scrubs (suc f) [] text h done = refl
scrub_loop-Scrubs zero (b ∷ s) text h r = absurd (omega arith)
scrub_loop-Scrubs (suc f) (b ∷ s) text h (rune c more) =
    let size = (decode_rune (b ∷ s)).1 in
    ap (λ t. rune_bytes (b ∷ s) ++ t)
      (scrub_loop-Scrubs f (drop size (b ∷ s)) _
        (omega (arith, length-drop size (b ∷ s), decode_rune-takes (b ∷ s))) more)

-- A reader behind the opening quote reads the scrubbed string, and stops behind the closing quote.
pub read_string-scrub :
    (s t : List ℕ) → read_string plain (safe_add_string s [] ++ quote ∷ t) ≡ some (scrub s, t)
read_string-scrub s t =
    let (text, out, scrubs, eq, reads) = safe_add_string-read s [] in
    ap (λ o. read_string plain (o ++ quote ∷ t)) eq
    ∙ reads t
    ∙ ap (λ x. some (x, t)) (scrub_loop-Scrubs (length s) s text (omega arith) scrubs)
