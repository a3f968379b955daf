-- ===== src/Event/Log/Torn.antt =====
-- src/event.rs: what `EventLog::resume` reads back from a file that the appends have written, whole or
-- cut short.
use perdure.Prelude.{
  ◌≡◌, ◌≢◌, refl, sym, ap, ap₂, ◌∙◌, arith, ◌==◌, Text, true, false, some, List, [], ◌∷◌, ◌++◌,
  append_assoc, append-nil, Result, ok, err, All, has_char,
}
use perdure.Json.{Value}
use perdure.Event.{Event}
use perdure.Event.Log.{
  event, eof, bad, Codec, LogError, invalid_data, physical_lines, line_text, is_blank, also,
  strict_line, skip_or, newline_if, log_behind, read_lines, read_all_strict, recover_parsed,
  recover_line, recover_lines, recover_torn_tail, or_original, existing, reopened, resume, append,
}

-- One line has no newline in it.
push-line :
    (l rest : Text)
    → has_char 10 l ≡ false
    → physical_lines (l ++ 10 ∷ rest) ≡ (l, true) ∷ physical_lines rest
unfolding has_char physical_lines
push-line [] rest h = refl
push-line (c ∷ l) rest h = ground (arith, push-line l rest)

push-tail : (l : Text) → l ≢ [] → has_char 10 l ≡ false → physical_lines l ≡ (l, false) ∷ []
unfolding has_char physical_lines
push-tail [] n h = absurd (n refl)
push-tail (c ∷ []) n h = ground arith
push-tail (c ∷ d ∷ l) n h =
    let ih = push-tail (d ∷ l) (λ e. cc e) (ground arith) in
    let plain : (c == 10) ≡ false = ground arith in rw (plain, ih) refl

-- What the codec has to do for an event: its line is one line, is not blank and reads back.
unfoldable pub Prints : Codec → Event → Type 0
Prints codec e =
    (has_char 10 (codec.to_string e) ≡ false)
    × (is_blank (codec.to_string e) ≡ false)
    × (line_text (codec.to_string e) true ≡ codec.to_string e)
    × (codec.from_str (codec.to_string e) ≡ event e)

module _ (codec : Codec) where
  -- The file that the appends of some events have made.
  abbrev pub written : List Event → Text
  written [] = []
  written (e ∷ es) = codec.to_string e ++ 10 ∷ written es

  -- A line that an append was cut off in: no whole line, but the start of one.
  unfoldable pub IsTorn : Text → Type 0
  IsTorn t = (t ≢ []) × (has_char 10 t ≡ false) × (is_blank t ≡ false) × (codec.from_str t ≡ eof)

  prepend : List Event → Result (List Event) LogError → Result (List Event) LogError
  prepend [] r = r
  prepend (e ∷ es) r = also e (prepend es r)

  prepend-ok : (es fs : List Event) → prepend es (ok fs) ≡ ok (es ++ fs)
  unfolding prepend also
  prepend-ok [] fs = refl
  prepend-ok (e ∷ es) fs = rw (prepend-ok es fs) refl

  prepend-err : (es : List Event) (x : LogError) → prepend es (err x) ≡ err x
  unfolding prepend also
  prepend-err [] x = refl
  prepend-err (e ∷ es) x = rw (prepend-err es x) refl

  read-written :
      (es : List Event) (rest : Text)
      → All (Prints codec) es
      → read_lines codec (physical_lines (written es ++ rest))
        ≡ prepend es (read_lines codec (physical_lines rest))
  unfolding Prints prepend read_lines skip_or strict_line
  read-written [] rest h = refl
  read-written (e ∷ es) rest h =
      let l = codec.to_string e in
      let (plain, shown, same, back) = h.0 in
      rw (append_assoc l (10 ∷ written es) rest, push-line l (written es ++ rest) plain)
        (rw (same, shown, back) (ap (also e) (read-written es rest h.1)))

  recover-written :
      (es events : List Event) (rest c : Text)
      → All (Prints codec) es
      → recover_lines codec (physical_lines (written es ++ rest)) events c c false
        ≡ recover_lines codec
            (physical_lines rest)
            (events ++ es)
            (c ++ written es)
            (c ++ written es)
            false
  unfolding Prints recover_lines recover_line recover_parsed newline_if
  recover-written [] events rest c h = rw (append-nil events, append-nil c) refl
  recover-written (e ∷ es) events rest c h =
      let l = codec.to_string e in
      let (plain, shown, same, back) = h.0 in
      rw (append_assoc l (10 ∷ written es) rest, push-line l (written es ++ rest) plain)
        (rw (shown, back)
          (recover-written es (events ++ e ∷ []) rest (c ++ (l ++ 10 ∷ [])) h.1
            ∙ ap₂ (λ ev k. recover_lines codec (physical_lines rest) ev k k false)
                (append_assoc events (e ∷ []) es)
                (append_assoc c (l ++ 10 ∷ []) (written es)
                  ∙ ap (λ k. c ++ k) (append_assoc l (10 ∷ []) (written es)))))

  read-whole :
      (es : List Event) → All (Prints codec) es → read_all_strict codec (written es) ≡ ok es
  unfolding read_all_strict
  read-whole es h =
      ap (λ f. read_lines codec (physical_lines f)) (sym (append-nil (written es)))
      ∙ read-written es [] h
      ∙ (unfold physical_lines read_lines in prepend-ok es [] ∙ ap ok (append-nil es))

  -- A file of whole lines is read back as it was written, and is left alone.
  resume-written :
      (run_id : Text) (es : List Event)
      → All (Prints codec) es
      → resume codec run_id (some (written es)) ≡ ok (log_behind run_id es, written es)
  unfolding resume
  resume-written run_id es h = rw (read-whole es h) (unfold existing reopened in refl)

  read-torn :
      (es : List Event) (t : Text)
      → All (Prints codec) es
      → IsTorn t
      → read_all_strict codec (written es ++ t) ≡ err invalid_data
  unfolding read_all_strict IsTorn
  read-torn es t h torn =
      let (some_text, plain, shown, cut) = torn in
      read-written es t h
      ∙ rw (push-tail t some_text plain) (
          unfold read_lines line_text in
          rw (shown, cut) (unfold skip_or strict_line in prepend-err es invalid_data))

  recover-torn :
      (es : List Event) (t : Text)
      → All (Prints codec) es
      → IsTorn t
      → recover_torn_tail codec (written es ++ t) ≡ ok (es, written es)
  unfolding recover_torn_tail IsTorn
  recover-torn es t h torn =
      let (some_text, plain, shown, cut) = torn in
      recover-written es [] t [] h
      ∙ rw (push-tail t some_text plain) (
          unfold recover_lines in
          rw (shown, cut) (unfold recover_line recover_parsed recover_lines in refl))

  -- An append that was cut off within its line is undone: the file is truncated to the whole lines,
  -- and the log goes on behind their events as if the append had not begun.
  pub resume_torn :
      (run_id : Text) (es : List Event) (t : Text)
      → All (Prints codec) es
      → IsTorn t
      → (resume codec run_id (some (written es ++ t)) ≡ ok (log_behind run_id es, written es))
        × (resume codec run_id (some (written es)) ≡ ok (log_behind run_id es, written es))
  unfolding resume
  resume_torn run_id es t h torn = (
    rw (read-torn es t h torn)
        (unfold existing in rw (recover-torn es t h torn) (unfold or_original reopened in refl)),
    resume-written run_id es h,
  )

  -- Two lines that no newline parts are no event.
  unfoldable pub Trailing : Text → Type 0
  Trailing l = (has_char 10 l ≡ false) × (is_blank l ≡ false) × (codec.from_str l ≡ bad)

  read-Trailing :
      (es : List Event) (l : Text)
      → All (Prints codec) es
      → line_text l true ≡ l
      → Trailing l
      → read_all_strict codec (written es ++ (l ++ 10 ∷ [])) ≡ err invalid_data
  unfolding read_all_strict Trailing
  read-Trailing es l h same trailing =
      let (plain, shown, cut) = trailing in
      read-written es (l ++ 10 ∷ []) h
      ∙ rw (push-line l [] plain) (
          unfold read_lines in
          rw (same, shown, cut) (unfold skip_or strict_line in prepend-err es invalid_data))

  recover-Trailing :
      (es : List Event) (l : Text)
      → All (Prints codec) es
      → Trailing l
      → recover_torn_tail codec (written es ++ (l ++ 10 ∷ [])) ≡ err invalid_data
  unfolding recover_torn_tail Trailing
  recover-Trailing es l h trailing =
      let (plain, shown, cut) = trailing in
      recover-written es [] (l ++ 10 ∷ []) [] h
      ∙ rw (push-line l [] plain)
          (unfold recover_lines in rw (shown, cut) (unfold recover_line recover_parsed in refl))

  read-unended :
      (es : List Event) (e : Event)
      → All (Prints codec) es
      → Prints codec e
      → codec.to_string e ≢ []
      → read_all_strict codec (written es ++ codec.to_string e) ≡ ok (es ++ e ∷ [])
  unfolding read_all_strict Prints
  read-unended es e h p some_text =
      let (plain, shown, same, back) = p in
      read-written es (codec.to_string e) h
      ∙ rw (push-tail (codec.to_string e) some_text plain) (
          unfold read_lines line_text in
          rw (shown, back) (unfold skip_or strict_line also read_lines in prepend-ok es (e ∷ [])))

  -- A crash after the line of an event but before its newline leaves a file that the next resumption
  -- takes as it is, without the newline. The append that follows puts its line behind on the same
  -- line, and from then on every resumption fails.
  pub missing_newline_blocks :
      (run_id : Text) (es : List Event) (e : Event) (kind : Text) (payload : Value)
      → All (Prints codec) es
      → Prints codec e
      → codec.to_string e ≢ []
      → let log = log_behind run_id (es ++ e ∷ []) in
        let cut = written es ++ codec.to_string e in
        let next = append codec log cut kind payload in
        let both = codec.to_string e ++ codec.to_string next.1 in
        line_text both true ≡ both
        → Trailing both
        → (resume codec run_id (some cut) ≡ ok (log, cut))
          × (resume codec run_id (some next.0.1) ≡ err invalid_data)
  unfolding resume append
  missing_newline_blocks run_id es e kind payload h p some_text same trailing =
      let second =
        codec.to_string
          (append codec (log_behind run_id (es ++ e ∷ [])) (written es ++ codec.to_string e) kind
            payload).1 in
      let joined : (written es ++ codec.to_string e) ++ (second ++ 10 ∷ [])
          ≡ written es ++ ((codec.to_string e ++ second) ++ 10 ∷ []) =
        append_assoc (written es) (codec.to_string e) (second ++ 10 ∷ [])
        ∙ ap (λ k. written es ++ k) (sym (append_assoc (codec.to_string e) second (10 ∷ []))) in
      (
        rw (read-unended es e h p some_text) (unfold existing reopened in refl),
        rw (joined, read-Trailing es _ h same trailing)
            (unfold existing in
              rw (recover-Trailing es _ h trailing) (unfold or_original reopened in refl)),
      )
