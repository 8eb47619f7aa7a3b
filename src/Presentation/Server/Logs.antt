-- ===== src/Presentation/Server/Logs.antt =====
-- The batched log loses no line and changes no order.
use onlyapi.Base.{
  List, [], append_assoc, ap, arith, false, refl, sym, ℕ, ◌++◌, ◌≡◌, ◌∙◌, ◌∷◌, kept, subst,
  append_nil,
}
use onlyapi.Presentation.Server.{LogState, flush_logs, joined, write_log}

-- A line is logged, or the timer runs.
pub data LogEvent : Type 0 where
  logs : List ℕ → LogEvent
  fires : LogEvent

abbrev pub quiet : LogState
quiet = record { log_buffer = []; flush_scheduled = false; timers = 0; stdout = [] }

pub run_logs : List LogEvent → LogState → LogState
run_logs [] s = s
run_logs (logs line ∷ es) s = run_logs es (write_log line s)
run_logs (fires ∷ es) s = run_logs es (flush_logs s)

pub lines_of : List LogEvent → List (List ℕ)
lines_of [] = []
lines_of (logs line ∷ es) = line ∷ lines_of es
lines_of (fires ∷ es) = lines_of es

joined-append : (xs ys : List (List ℕ)) → joined (xs ++ ys) ≡ joined xs ++ joined ys
unfolding joined
joined-append [] ys = refl
joined-append (x ∷ xs) ys =
    ap (λ t. x ++ t) (joined-append xs ys) ∙ sym (append_assoc x (joined xs) (joined ys))

-- All that was logged and is not lost, with the timer set where a line waits.
abbrev Holds : List ℕ → LogState → Type 0
Holds text s =
    (s.stdout ++ joined s.log_buffer ≡ text) × (s.flush_scheduled ≡ false → s.log_buffer ≡ [])

write-Holds :
    (text line : List ℕ) (s : LogState) → Holds text s → Holds (text ++ line) (write_log line s)
unfolding write_log joined
write-Holds text line s (h, w) =
    let text_kept : s.stdout ++ joined (s.log_buffer ++ line ∷ []) ≡ text ++ line =
      ap (λ t. s.stdout ++ t) (joined-append s.log_buffer (line ∷ []))
      ∙ ap (λ t. s.stdout ++ (joined s.log_buffer ++ t)) (append_nil line)
      ∙ sym (append_assoc s.stdout (joined s.log_buffer) line)
      ∙ ap (λ t. t ++ line) h in
    ground arith

-- A run of the timer writes the buffer and empties it.
flushed :
    (s : LogState) (lines : List (List ℕ))
    → s.log_buffer ≡ lines
    → ((flush_logs s).stdout ++ joined (flush_logs s).log_buffer ≡ s.stdout ++ joined lines)
      × ((flush_logs s).log_buffer ≡ [])
unfolding flush_logs joined
flushed s [] same = (ground arith, ground arith)
flushed s (line ∷ lines) same =
    (ground (arith, append_nil (s.stdout ++ (line ++ joined lines))), ground arith)

flush-Holds : (text : List ℕ) (s : LogState) → Holds text s → Holds text (flush_logs s)
flush-Holds text s (h, w) =
    let (kept, emptied) = flushed s s.log_buffer refl in (kept ∙ h, λ idle. emptied)

run-Holds :
    (es : List LogEvent) (text : List ℕ) (s : LogState)
    → Holds text s
    → Holds (text ++ joined (lines_of es)) (run_logs es s)
unfolding run_logs lines_of joined
run-Holds [] text s (h, w) = (h ∙ sym (append_nil text), w)
run-Holds (logs line ∷ es) text s h =
    subst (λ t. Holds t (run_logs es (write_log line s)))
      (append_assoc text line (joined (lines_of es)))
      (run-Holds es (text ++ line) (write_log line s) (write-Holds text line s h))
run-Holds (fires ∷ es) text s h = run-Holds es text (flush_logs s) (flush-Holds text s h)

-- Whatever lines are logged and whenever the timer runs, the output and after it the buffer are the
-- lines in the order of their logging; a line waits only where a timer is set; and one more run of
-- the timer makes the output the lines.
pub stdout-run_logs :
    (es : List LogEvent)
    → let s = run_logs es quiet in
      (s.stdout ++ joined s.log_buffer ≡ joined (lines_of es))
      × (s.flush_scheduled ≡ false → s.log_buffer ≡ [])
      × ((flush_logs s).stdout ≡ joined (lines_of es))
unfolding joined
stdout-run_logs es =
    let s = run_logs es quiet in
    let (h, w) = run-Holds es [] quiet (refl, λ idle. refl) in
    let (kept, emptied) = flushed s s.log_buffer refl in
    (
      h,
      w,
      sym (append_nil (flush_logs s).stdout)
          ∙ ap (λ b. (flush_logs s).stdout ++ joined b) (sym emptied)
          ∙ kept
          ∙ h,
    )
