-- ===== src/Status/Lossless.antt =====
-- What is reported through internal/cli/status.go is shown, in order.
use subctl.Base.{
  String, String_eq, ◌==◌, ◌≡◌, refl, sym, ap, ◌∙◌, inl, inr, Bool, true, false, List, [], ◌∷◌,
  ◌++◌, map, if◌then◌else◌, append-nil, Bool-cases,
}
use mathlib.Core.List.{append_assoc}
use subctl.Status.{
  ResultType, Message, Line, begun, spinning, stopped, ended_as, shown, Status, end, start, report,
  Call, start_call, report_call, end_call, apply_call, apply_calls, stop_spinner, begin_line,
  new_reporter,
}

-- The messages among the lines.
abbrev pub messages : List Line → List Message
messages [] = []
messages (shown m ∷ ls) = m ∷ messages ls
messages (begun _ ∷ ls) = messages ls
messages (spinning _ ∷ ls) = messages ls
messages (stopped ∷ ls) = messages ls
messages (ended_as _ _ ∷ ls) = messages ls

-- The messages of the calls, less those with an empty format.
abbrev pub reported : List Call → List Message
reported [] = []
reported (report_call kind format message ∷ cs) =
    if format == "" then reported cs else (kind, message) ∷ reported cs
reported (start_call _ ∷ cs) = reported cs
reported (end_call ∷ cs) = reported cs

-- What was shown, and then what waits.
abbrev pub so_far : Status → List Message
so_far s = messages s.output ++ s.message_queue

-- Between two phases nothing waits.
abbrev pub IsSettled : Status → Type 0
IsSettled s = (s.status == "") ≡ true → s.message_queue ≡ []

messages-append : (ls ms : List Line) → messages (ls ++ ms) ≡ messages ls ++ messages ms
messages-append [] ms = refl
messages-append (shown m ∷ ls) ms = ap (λ l. m ∷ l) (messages-append ls ms)
messages-append (begun _ ∷ ls) ms = messages-append ls ms
messages-append (spinning _ ∷ ls) ms = messages-append ls ms
messages-append (stopped ∷ ls) ms = messages-append ls ms
messages-append (ended_as _ _ ∷ ls) ms = messages-append ls ms

messages-map : (ms : List Message) → messages (map shown ms) ≡ ms
messages-map [] = refl
messages-map (m ∷ ms) = ap (λ l. m ∷ l) (messages-map ms)

-- The end of a phase shows what waited.
phase_end :
    (b : Bool) (r : ResultType) (t : String) (ms : List Message)
    → messages (stop_spinner b ++ (ended_as r t ∷ map shown ms)) ≡ ms
phase_end true r t ms = messages-map ms
phase_end false r t ms = messages-map ms

end-so_far : (s : Status) → so_far (end s) ≡ so_far s
unfolding end
end-so_far s = elim (Bool-cases (s.status == "")) [
  | inl e ↦ rw e refl
  | inr e ↦
      rw
        (
          e,
          messages-append s.output _,
          phase_end s.has_spinner _ s.status s.message_queue,
          append-nil (messages s.output ++ s.message_queue),
        )
        refl
]

end-IsSettled : (s : Status) → IsSettled s → (end s).message_queue ≡ []
unfolding end
end-IsSettled s h = elim (Bool-cases (s.status == "")) [ inl e ↦ rw e (h e) | inr e ↦ rw e refl ]

begin_none : (b : Bool) (t : String) → messages (begin_line b t ∷ []) ≡ []
begin_none true t = refl
begin_none false t = refl

start-so_far : (t : String) (s : Status) → so_far (start t s) ≡ so_far s
unfolding start
start-so_far t s =
    rw
      (
        messages-append (end s).output _,
        begin_none (end s).has_spinner t,
        append-nil (messages (end s).output),
      )
      (end-so_far s)

-- The message of one call, unless its format is empty.
abbrev message_of : ResultType → String → String → List Message
message_of kind f t = if f == "" then [] else (kind, t) ∷ []

report-so_far :
    (kind : ResultType) (format t : String) (s : Status)
    → IsSettled s
    → so_far (report kind format t s) ≡ so_far s ++ message_of kind format t
unfolding report
report-so_far kind format t s h = elim (Bool-cases (format == "")) [
  | inl e ↦ rw e (sym (append-nil (so_far s)))
  | inr e ↦ elim (Bool-cases (s.status == "")) [
    | inl f ↦
        rw
          (
            e,
            f,
            messages-append s.output _,
            h f,
            append-nil (messages s.output),
            append-nil (messages s.output ++ ((kind, t) ∷ [])),
          )
          refl
    | inr f ↦ rw (e, f) (sym (append_assoc (messages s.output) s.message_queue ((kind, t) ∷ [])))
  ]
]

if_IsSettled :
    (b : Bool) (x y : Status)
    → (b ≡ true → IsSettled x)
    → (b ≡ false → IsSettled y)
    → IsSettled (if b then x else y)
if_IsSettled true x y h k = h refl
if_IsSettled false x y h k = k refl

report-IsSettled :
    (kind : ResultType) (format t : String) (s : Status)
    → IsSettled s
    → IsSettled (report kind format t s)
unfolding report
report-IsSettled kind format t s h =
    if_IsSettled (format == "") _ _ (λ _. h)
      (λ e. if_IsSettled (s.status == "") _ _ (λ f _. h f) (λ f g. absurd (sym f ∙ g)))
  where
    absurd : {A : Type 0} → false ≡ true → A
    absurd h = cc

start-IsSettled : (t : String) (s : Status) → IsSettled s → IsSettled (start t s)
unfolding start
start-IsSettled t s h = λ _. end-IsSettled s h

apply_call-IsSettled : (c : Call) (s : Status) → IsSettled s → IsSettled (apply_call c s)
unfolding apply_call
apply_call-IsSettled (start_call t) s h = start-IsSettled t s h
apply_call-IsSettled (report_call kind format t) s h = report-IsSettled kind format t s h
apply_call-IsSettled end_call s h = λ _. end-IsSettled s h

reported_more :
    (kind : ResultType) (format t : String) (cs : List Call)
    → reported (report_call kind format t ∷ cs) ≡ message_of kind format t ++ reported cs
reported_more kind format t cs = elim (Bool-cases (format == "")) [
  | inl e ↦ rw e refl
  | inr e ↦ rw e refl
]

-- From a state that is settled, as a new reporter is, what was shown with what waits is after any calls
-- what it was before, followed by the messages of the calls whose format is not empty, in their order: none is
-- lost, shown twice or overtaken.
pub apply_calls-so_far :
    (cs : List Call) (s : Status)
    → IsSettled s
    → so_far (apply_calls cs s) ≡ so_far s ++ reported cs
unfolding apply_calls apply_call
apply_calls-so_far [] s h = sym (append-nil (so_far s))
apply_calls-so_far (start_call t ∷ cs) s h =
    apply_calls-so_far cs (start t s) (start-IsSettled t s h)
    ∙ ap (λ l. l ++ reported cs) (start-so_far t s)
apply_calls-so_far (end_call ∷ cs) s h =
    apply_calls-so_far cs (end s) (λ _. end-IsSettled s h)
    ∙ ap (λ l. l ++ reported cs) (end-so_far s)
apply_calls-so_far (report_call kind format t ∷ cs) s h =
    apply_calls-so_far cs (report kind format t s) (report-IsSettled kind format t s h)
    ∙ ap (λ l. l ++ reported cs) (report-so_far kind format t s h)
    ∙ append_assoc (so_far s) (message_of kind format t) (reported cs)
    ∙ ap (λ l. so_far s ++ l) (sym (reported_more kind format t cs))

apply_calls-IsSettled : (cs : List Call) (s : Status) → IsSettled s → IsSettled (apply_calls cs s)
unfolding apply_calls
apply_calls-IsSettled [] s h = h
apply_calls-IsSettled (c ∷ cs) s h =
    apply_calls-IsSettled cs (apply_call c s) (apply_call-IsSettled c s h)

-- When the last phase of a new reporter has ended, the messages shown are those of all calls.
pub end-All_shown :
    (spinner : Bool) (cs : List Call)
    → messages ((end (apply_calls cs (new_reporter spinner))).output) ≡ reported cs
end-All_shown spinner cs =
    let s = apply_calls cs (new_reporter spinner) in
    sym (append-nil (messages ((end s).output)))
    ∙ ap (λ q. messages ((end s).output) ++ q)
        (sym (end-IsSettled s (apply_calls-IsSettled cs (new_reporter spinner) (λ _. refl))))
    ∙ end-so_far s
    ∙ apply_calls-so_far cs (new_reporter spinner) (λ _. refl)
