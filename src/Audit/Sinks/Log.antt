-- ===== src/Audit/Sinks/Log.antt =====
-- The file of events, and how it reads back.
use mathlib.Core.List.{append_assoc, append-nil}
use go_metrics_stas.Prelude.{
  ℕ, String, ◌≡◌, refl, sym, ap, ◌∙◌, Option, some, Bool, true, false, List, [], ◌∷◌, ◌++◌, map,
  eqb, if◌then◌else◌, All, eq_refl, Option-cases, inl, inr,
}
use go_metrics_stas.Dict.{Dict}
use go_metrics_stas.Dict.Laws.{get-put}
use go_metrics_stas.Http.{Bytes}
use go_metrics_stas.Outcome.{Result, ok, err}
use go_metrics_stas.Audit.{AuditEvent}
use go_metrics_stas.Audit.Sinks.{Disk, no_open, short, whole, content, append, file_update}

abbrev pub cons_line : ℕ → List Bytes → List Bytes
cons_line x [] = (x ∷ []) ∷ []
cons_line x (l ∷ ls) = (x ∷ l) ∷ ls

-- The lines of a file; 10 ends a line.
unfoldable pub lines : Bytes → List Bytes
lines [] = []
lines (x ∷ b) = let rest = lines b in if eqb x 10 then [] ∷ rest else cons_line x rest

abbrev pub NoNewline : Bytes → Type 0
NoNewline b = All (λ x. eqb x 10 ≡ false) b

lines-append : (b rest : Bytes) → NoNewline b → lines (b ++ 10 ∷ rest) ≡ b ∷ lines rest
unfolding lines
lines-append [] rest h = refl
lines-append (x ∷ b) rest h = rw (h.0, lines-append b rest h.1) refl

abbrev pub Update : Type 0
Update = Disk × AuditEvent

-- No write stops halfway.
abbrev pub NotShort : Update → Type 0
NotShort (short n, event) = ⊥
NotShort (d, event) = Unit

module _ (encode : AuditEvent → Option Bytes) (path : String) where
  -- Updates of one file, one after the other; the mutex keeps them apart.
  unfoldable pub run_updates : List Update → Dict Bytes → Dict Bytes
  run_updates [] files = files
  run_updates ((d, event) ∷ updates) files =
      run_updates updates (file_update encode path d event files).1

  abbrev logged_line : Disk → Option Bytes → List Bytes
  logged_line whole (some b) = b ∷ []
  logged_line d o = []

  abbrev pub is_ok : Result (Unit {0}) → Bool
  is_ok (ok u) = true
  is_ok (err e) = false

  -- The lines that are written.
  unfoldable pub logged : List Update → List Bytes
  logged [] = []
  logged ((d, event) ∷ updates) = logged_line d (encode event) ++ logged updates

  abbrev flat : List Bytes → Bytes
  flat [] = []
  flat (b ∷ bs) = b ++ 10 ∷ flat bs

  content-append :
      (b : Bytes) (files : Dict Bytes)
      → content path (append path b files) ≡ content path files ++ b
  content-append b files = rw (get-put path path (content path files ++ b) files, eq_refl path) refl

  -- One update adds its line.
  content-file_update :
      (d : Disk) (event : AuditEvent) (files : Dict Bytes)
      → NotShort (d, event)
      → content path (file_update encode path d event files).1
        ≡ content path files ++ flat (logged_line d (encode event))
  unfolding file_update
  content-file_update no_open event files h = sym (append-nil (content path files))
  content-file_update (short n) event files h = absurd h
  content-file_update whole event files h = elim (Option-cases (encode event)) [
    | inl e ↦ rw e (content-append [] files)
    | inr (b, e) ↦ rw e (content-append (b ++ 10 ∷ []) files)
  ]

  flat-append : (bs cs : List Bytes) → flat (bs ++ cs) ≡ flat bs ++ flat cs
  flat-append [] cs = refl
  flat-append (b ∷ bs) cs =
      ap (λ r. b ++ 10 ∷ r) (flat-append bs cs) ∙ sym (append_assoc b (10 ∷ flat bs) (flat cs))

  content-run_updates :
      (updates : List Update) (files : Dict Bytes)
      → All NotShort updates
      → content path (run_updates updates files) ≡ content path files ++ flat (logged updates)
  unfolding run_updates logged
  content-run_updates [] files h = sym (append-nil (content path files))
  content-run_updates ((d, event) ∷ updates) files h =
      let line = logged_line d (encode event) in
      content-run_updates updates (file_update encode path d event files).1 h.1
      ∙ ap (λ b. b ++ flat (logged updates)) (content-file_update d event files h.0)
      ∙ append_assoc (content path files) (flat line) (flat (logged updates))
      ∙ ap (λ b. content path files ++ b) (sym (flat-append line (logged updates)))

  lines-flat : (bs : List Bytes) → All NoNewline bs → lines (flat bs) ≡ bs
  unfolding lines
  lines-flat [] h = refl
  lines-flat (b ∷ bs) h = lines-append b (flat bs) h.0 ∙ ap (λ r. b ∷ r) (lines-flat bs h.1)

  -- The events whose update returned no error.
  unfoldable pub accepted : List Update → List AuditEvent
  accepted [] = []
  accepted ((d, event) ∷ updates) =
      let rest = accepted updates in
      if is_ok (file_update encode path d event []).0 then event ∷ rest else rest

  module _ (decode : Bytes → Option AuditEvent)
      (law : (e : AuditEvent) (b : Bytes)
        → encode e ≡ some b
        → (decode b ≡ some e) × NoNewline b) where
    logged-NoNewline : (updates : List Update) → All NoNewline (logged updates)
    unfolding logged
    logged-NoNewline [] = tt
    logged-NoNewline ((no_open, event) ∷ updates) = logged-NoNewline updates
    logged-NoNewline ((short n, event) ∷ updates) = logged-NoNewline updates
    logged-NoNewline ((whole, event) ∷ updates) = elim (Option-cases (encode event)) [
      | inl e ↦ rw e (logged-NoNewline updates)
      | inr (b, e) ↦ rw e ((law event b e).1, logged-NoNewline updates)
    ]

    decode-logged :
        (updates : List Update) → map decode (logged updates) ≡ map some (accepted updates)
    unfolding logged accepted file_update
    decode-logged [] = refl
    decode-logged ((no_open, event) ∷ updates) = decode-logged updates
    decode-logged ((short n, event) ∷ updates) = elim (Option-cases (encode event)) [
      | inl e ↦ rw e (decode-logged updates)
      | inr (b, e) ↦ rw e (decode-logged updates)
    ]
    decode-logged ((whole, event) ∷ updates) = elim (Option-cases (encode event)) [
      | inl e ↦ rw e (decode-logged updates)
      | inr (b, e) ↦ rw (e, (law event b e).0) (ap (λ r. some event ∷ r) (decode-logged updates))
    ]

    -- After any updates of an empty log, none of which wrote only a part of its line, the lines of the
    -- file decode to the events whose update returned no error, each once and in order: where the
    -- decoder undoes the encoder, and an encoded event has no line break.
    pub lines-run_updates :
        (updates : List Update) (files : Dict Bytes)
        → All NotShort updates
        → content path files ≡ []
        → map decode (lines (content path (run_updates updates files)))
          ≡ map some (accepted updates)
    lines-run_updates updates files h e =
        ap (λ b. map decode (lines b))
          (content-run_updates updates files h ∙ ap (λ b. b ++ flat (logged updates)) e)
        ∙ ap (map decode) (lines-flat (logged updates) (logged-NoNewline updates))
        ∙ decode-logged updates
