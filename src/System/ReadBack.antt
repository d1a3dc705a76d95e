-- ===== src/System/ReadBack.antt =====
-- The lines of the log files, read by a JSON parser.
mod Tests
use nanozap.Base.{ℕ, ◌≤◌, Bool, List, [], ◌∷◌, length, if◌then◌else◌}
use nanozap.Base.Int.{ℤ}
use nanozap.Zapcore.Core
use nanozap.Zapcore.Core.{IoCore}
use nanozap.Zapcore.Encoder.{Externals, EncoderConfig, Members, end, append_members}
use nanozap.Zapcore.Json
use nanozap.Zapcore.Json.{JsonEncoder}
use nanozap.Zapcore.Json.Parser.{Json, object}
use nanozap.Zapcore.Json.Meaning.{PrintsJson, json_members, MembersClosed, entry_members}
use nanozap.Logger.{LogBody, Logger}
use nanozap.Logger.Loop.{entry_of}

module _ (ex : Externals) (prints : PrintsJson ex) (cfg : EncoderConfig ex) (spaced : Bool)
    (digits : ℤ → List ℕ) (ctx : Members ex) where
  -- The calls for a message that the loop writes at some time.
  abbrev pub message_members : ℤ → LogBody → Members ex
  message_members now lb = entry_members ex cfg digits (entry_of now lb) (append_members ex ctx end)

  abbrev pub message_object : ℤ → LogBody → Json
  message_object now lb = object (json_members ex prints cfg spaced (message_members now lb))

  -- The objects of the messages at whose level the core is enabled, one at each time.
  unfoldable pub objects : IoCore (JsonEncoder ex) → List ℤ → List LogBody → List Json
  objects c times [] = []
  objects c [] (lb ∷ lbs) = []
  objects c (now ∷ times) (lb ∷ lbs) =
      let rest = objects c times lbs in
      if Core.enabled c lb.lvl then message_object now lb ∷ rest else rest

  -- The level encoder makes at most one call, and the calls for each message are closed.
  unfoldable pub AllPrintable : List ℤ → List LogBody → Type 0
  AllPrintable times [] = Unit
  AllPrintable [] (lb ∷ lbs) = Unit
  AllPrintable (now ∷ times) (lb ∷ lbs) =
      (length (cfg.encode_level lb.lvl) ≤ 1)
      × MembersClosed ex prints cfg spaced (message_members now lb)
      × AllPrintable times lbs
