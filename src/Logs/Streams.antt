-- ===== src/Logs/Streams.antt =====
-- Where the lines go.
use elektron_net_ppool.Common.{
  ◌≡◌, refl, ◌∙◌, ap, false_not_true, true, Bool-cases, inl, inr, Option, none, some, List, [], ◌∷◌,
}
use elektron_net_ppool.Common.Js.{Text, text_eq-true, text_eq_refl}
use elektron_net_ppool.Logs.{
  Date, today_stamp, file_name, LogRotationService, new_service, end_stream, roll_stream,
  is_current, ensure_stream, append_line, write,
}

-- The stream that is open is the one of the date kept, and no other is.
unfoldable pub HasOneStream : Option Text → Option Text → List Text → Type 0
HasOneStream none none streams = streams ≡ []
HasOneStream (some date) (some path) streams = (path ≡ file_name date) × (streams ≡ path ∷ [])
HasOneStream _ _ streams = ⊥

abbrev IsOpen : LogRotationService → Type 0
IsOpen s = HasOneStream s.current_date s.current_stream s.open_streams

-- The lines of the calls so far, newest first, each with the file of its day.
abbrev pub write_all : List (Date × Text) → LogRotationService → LogRotationService
write_all [] s = s
write_all ((date, line) ∷ calls) s = write_all calls (write date line s)

abbrev pub filed : List (Date × Text) → List (Text × Text) → List (Text × Text)
filed [] done = done
filed ((date, line) ∷ calls) done = filed calls ((file_name (today_stamp date), line) ∷ done)

-- The stream of a stamp is open, and nothing was written.
IsReady : Text → LogRotationService → LogRotationService → Type 0
IsReady today s s' =
    (s'.current_date ≡ some today)
    × (s'.current_stream ≡ some (file_name today))
    × (s'.open_streams ≡ file_name today ∷ [])
    × (s'.written ≡ s.written)

ended :
    (date path : Option Text) (streams : List Text)
    → HasOneStream date path streams
    → end_stream path streams ≡ []
unfolding HasOneStream
ended none none streams h = h
ended (some date) none streams h = absurd h
ended none (some path) streams h = absurd h
ended (some date) (some path) streams h = rw (h.1, text_eq_refl path) refl

kept :
    (today : Text) (date path : Option Text) (streams : List Text)
    → HasOneStream date path streams
    → is_current today path date ≡ true
    → (date ≡ some today) × ((path ≡ some (file_name today)) × (streams ≡ file_name today ∷ []))
unfolding HasOneStream
kept today none none streams h e = absurd (false_not_true e)
kept today (some date) none streams h e = absurd h
kept today none (some path) streams h e = absurd h
kept today (some date) (some path) streams h e =
    let same = text_eq-true date today e in
    let there : path ≡ file_name today = h.0 ∙ ap file_name same in
    (ap (λ t. some t) same, (ap (λ t. some t) there, h.1 ∙ ap (λ t. t ∷ []) there))

ensure_stream-IsReady :
    (today : Text) (s : LogRotationService) → IsOpen s → IsReady today s (ensure_stream today s)
unfolding IsReady ensure_stream roll_stream
ensure_stream-IsReady today s h =
    elim (Bool-cases (is_current today s.current_stream s.current_date)) [
      | inl same ↦
          let k = kept today s.current_date s.current_stream s.open_streams h same in
          rw same (k.0, k.1.0, k.1.1, refl)
      | inr other ↦ rw other (
        refl,
        refl,
        ap (λ l. file_name today ∷ l) (ended s.current_date s.current_stream s.open_streams h),
        refl,
      )
    ]

append_some :
    (o : Option Text) (path line : Text) (s : LogRotationService)
    → o ≡ some path
    → append_line o line s ≡ record s { written = (path, line) ∷ s.written }
append_some o path line s h = rw h refl

append_line-filed :
    (today line : Text) (s s' : LogRotationService)
    → IsReady today s s'
    → IsOpen (append_line s'.current_stream line s')
      × ((append_line s'.current_stream line s').written ≡ (file_name today, line) ∷ s.written)
unfolding IsReady HasOneStream
append_line-filed today line s s' h =
    let e = append_some s'.current_stream (file_name today) line s' h.1 in
    rw e (rw (h.0, h.1, h.2) (refl, refl), ap (λ w. (file_name today, line) ∷ w) h.3)

write-filed :
    (date : Date) (line : Text) (s : LogRotationService)
    → IsOpen s
    → IsOpen (write date line s)
      × ((write date line s).written ≡ (file_name (today_stamp date), line) ∷ s.written)
unfolding write
write-filed date line s h =
    append_line-filed (today_stamp date) line s (ensure_stream (today_stamp date) s)
      (ensure_stream-IsReady (today_stamp date) s h)

write_all-filed_from :
    (calls : List (Date × Text)) (s : LogRotationService)
    → IsOpen s
    → IsOpen (write_all calls s) × ((write_all calls s).written ≡ filed calls s.written)
write_all-filed_from [] s h = (h, refl)
write_all-filed_from ((date, line) ∷ calls) s h =
    let first = write-filed date line s h in
    let rest = write_all-filed_from calls (write date line s) first.0 in
    (rest.0, rest.1 ∙ ap (filed calls) first.1)

-- Over any sequence of lines and dates, also where the day changes between them or goes back: each
-- line stands once and in order in the file of its own day, and no stream but the last one is left open.
pub write_all-filed :
    (calls : List (Date × Text))
    → let s = write_all calls new_service in
      (s.written ≡ filed calls []) × HasOneStream s.current_date s.current_stream s.open_streams
unfolding HasOneStream
write_all-filed calls = let k = write_all-filed_from calls new_service refl in (k.1, k.0)
