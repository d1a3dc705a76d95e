-- ===== src/Zapcore/Encoder/Sample.antt =====
-- A library with one float and one value that is encoded by reflection, to run encoders with.
use nanozap.Base.{false, none}
use nanozap.Base.Bytes.{bytes}
use nanozap.Zapcore.Encoder.{Externals}

abbrev pub library : Externals
library = record {
  Float = Unit;
  is_nan = λ f. false;
  is_inf = λ f. false;
  is_neg_inf = λ f. false;
  format = λ f size. bytes "1.5";
  Reflected = Unit;
  to_json = λ r. none;
  json_error = λ r. bytes "unsupported";
  base64 = λ v. v;
}
