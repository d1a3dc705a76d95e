-- ===== src/System/Advance.antt =====
-- What one write or sync, and one entry of the core, adds to the log files.
use nanozap.Base.{
  ℕ, ◌≡◌, refl, ap, sym, ◌∙◌, Bool, true, false, none, some, List, [], ◌++◌, append_assoc,
  append-nil, if◌then◌else◌, Bool-cases, inl, inr,
}
use mathlib.Core.Path.{subst}
use nanozap.Base.Int.{ltb_ℤ}
use nanozap.Zaproll.BufIo
use nanozap.Zaproll.BufIo.{BufIo, Writer, IsWriter}
use nanozap.Zaproll.BufIo.Write.Healthy.{NeverFails, Kept, write-Kept, flush-err}
use nanozap.Zaproll.Backup.{HeapPackage}
use nanozap.Zaproll.Rotation.{Os, sync}
use nanozap.Zaproll.Rotation.Counters.{IsValid}
use nanozap.Zaproll.Rotation.Stream.{Fresh, closed_file, stream, write-stream, sync-stream}
use nanozap.Zaproll.Rotation.Logged.{err_none}
use nanozap.Zapcore.Level.{error_level}
use nanozap.Zapcore.Entry.{Entry}
use nanozap.Zapcore.Core
use nanozap.Zapcore.Core.{IoCore, Encoding, WriteSyncer}
use nanozap.System.{Files, all_bytes, write_file, sync_file}

behind : (old c s s' p : List ℕ) → c ++ s' ≡ s ++ p → (old ++ c) ++ s' ≡ (old ++ s) ++ p
behind old c s s' p e = append_assoc old c s' ∙ ap (λ t. old ++ t) e ∙ sym (append_assoc old s p)

pub core_write-written :
    {E F S : Type 0} (encoding : Encoding E F) (out : WriteSyncer S) (c : IoCore E) (ent : Entry)
    (s : S) (text : List ℕ)
    → encoding.encode_entry c.enc ent ≡ some text
    → (out.write text s).0 ≡ false
    → ◌≡◌ {A = Bool × S} (Core.write encoding out c ent s) (
      false,
      if ltb_ℤ error_level ent.level
          then (out.sync (out.write text s).1).1
          else (out.write text s).1,
    )
unfolding Core.write
core_write-written encoding out c ent s text encoded written =
    elim (Bool-cases (ltb_ℤ error_level ent.level)) [
      | inl e ↦ simp (encoded, written, e, Core.write)
      | inr e ↦ simp (encoded, written, e, Core.write)
    ]

module _ (h : HeapPackage) {W : Type 0} (content : W → List ℕ) (write_to : Writer W)
    (answers : ℕ → Os W) (io : IsWriter write_to content)
    (fresh : (i : ℕ) → Fresh h content (answers i)) where
  abbrev pub bytes_of : Files W → List ℕ
  bytes_of = all_bytes h content write_to answers

  -- From one valid state to another, in which as many bytes more are in the files and the buffer,
  -- unless an error is kept, which takes a writer that fails.
  abbrev pub Advances : Files W → Files W → List ℕ → Type 0
  Advances s s' p =
      IsValid h s'.rotation
      × (s'.rotation.buf.err ≡ none → s.rotation.buf.err ≡ none × (bytes_of s' ≡ bytes_of s ++ p))
      × (NeverFails write_to → s.rotation.buf.err ≡ none → s'.rotation.buf.err ≡ none)

  pub Advances-trans :
      (s s₁ s₂ : Files W) (p q : List ℕ)
      → Advances s s₁ p
      → Advances s₁ s₂ q
      → Advances s s₂ (p ++ q)
  Advances-trans s s₁ s₂ p q (v, one, safe) (v', two, safe') = (
    v',
    λ clean.
        let (clean₁, e) = two clean in
        let (clean₀, e₀) = one clean₁ in
        (clean₀, e ∙ ap (λ t. t ++ q) e₀ ∙ append_assoc (bytes_of s) p q),
    λ never clean. safe' never (safe never clean),
  )

  pub either :
      (b : Bool) (s s₁ s₂ : Files W) (p : List ℕ)
      → Advances s s₁ p
      → Advances s s₂ p
      → Advances s (if b then s₁ else s₂) p
  either true s s₁ s₂ p a a' = a
  either false s s₁ s₂ p a a' = a'

  pub Advances-if :
      (b : Bool) (s s' : Files W) (p : List ℕ)
      → IsValid h s.rotation
      → Advances s s' p
      → Advances s (if b then s' else s) (if b then p else [])
  Advances-if true s s' p v a = a
  Advances-if false s s' p v a =
      (v, λ clean. (clean, sym (append-nil (bytes_of s))), λ never clean. clean)

  pub write_file-Advances :
      (p : List ℕ) (s : Files W)
      → IsValid h s.rotation
      → ((write_file h content write_to answers p s).0 ≡ false)
        × Advances s (write_file h content write_to answers p s).1 p
  unfolding write_file
  write_file-Advances p s v =
      let w = write-stream h content write_to io p (answers s.calls) s.rotation (fresh s.calls) v in
      rw (w.buffered, w.returned, write_file)
        (
          refl,
          (
            w.valid,
            λ clean. (
              err_none h content write_to io p (answers s.calls) s.rotation w clean,
              behind s.closed (closed_file h content w.b w.events) (stream h content s.rotation.buf)
                  (stream h content w.r'.buf) p (w.bytes (sym w.err ∙ clean)),
            ),
            λ never clean.
                w.err
                ∙ subst (Kept write_to content io never) w.buffered
                    (write-Kept write_to content io never s.rotation.buf p v.sound.buffer clean),
          ),
        )

  pub sync_file-Advances :
      (s : Files W)
      → IsValid h s.rotation
      → Advances s (sync_file h content write_to answers s).1 []
  unfolding sync_file
  sync_file-Advances s v =
      let w = sync-stream h content write_to io (answers s.calls) s.rotation (fresh s.calls) v in
      (
        w.valid,
        λ clean. (
          w.err clean,
          behind s.closed
              (closed_file h content (BufIo.flush write_to s.rotation.buf).2
                (sync h write_to (answers s.calls) s.rotation).2)
              (stream h content s.rotation.buf)
              (stream h content (sync h write_to (answers s.calls) s.rotation).1.buf) []
              (w.bytes ∙ sym (append-nil (stream h content s.rotation.buf))),
        ),
        λ never clean.
            w.kept ∙ flush-err write_to content io never s.rotation.buf v.sound.buffer clean,
      )
