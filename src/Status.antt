-- ===== src/Status.antt =====
-- internal/cli/status.go: the reporter of the command line. A phase has a status line, and what is
-- reported in it is queued until it ends. Messages are texts that were formatted already, and a report keeps
-- its format, which is tested; the lines
-- given to the logger and the spinner are the output, oldest first.
pub mod Lossless
pub mod Worst
pub mod Tests
use subctl.Base.{
  String, String_eq, ◌==◌, Bool, true, false, List, [], ◌∷◌, ◌++◌, map, if◌then◌else◌,
}

pub data ResultType : Type 0 where
  success failure warning : ResultType

abbrev pub Message : Type 0
Message = ResultType × String

-- What is shown: the start of a phase, on the logger or by the spinner, the spinner's stop, the status
-- line of a phase with its result, and a message.
pub data Line : Type 0 where
  begun : String → Line
  spinning : String → Line
  stopped : Line
  ended_as : ResultType → String → Line
  shown : Message → Line

pub record Status : Type 0 where
  pub has_spinner : Bool
  pub status : String
  pub message_queue : List Message
  pub output : List Line

unfoldable pub has_failure_messages : List Message → Bool
has_failure_messages [] = false
has_failure_messages ((failure, _) ∷ ms) = true
has_failure_messages ((success, _) ∷ ms) = has_failure_messages ms
has_failure_messages ((warning, _) ∷ ms) = has_failure_messages ms

unfoldable pub has_warning_messages : List Message → Bool
has_warning_messages [] = false
has_warning_messages ((warning, _) ∷ ms) = true
has_warning_messages ((success, _) ∷ ms) = has_warning_messages ms
has_warning_messages ((failure, _) ∷ ms) = has_warning_messages ms

unfoldable pub result_from_messages : List Message → ResultType
result_from_messages ms =
    if has_failure_messages ms
    then failure
    else if has_warning_messages ms
    then warning
    else success

-- NewReporter
abbrev pub new_reporter : Bool → Status
new_reporter spinner = record {
  has_spinner = spinner;
  status = "";
  message_queue = [];
  output = [];
}

abbrev pub stop_spinner : Bool → List Line
stop_spinner true = stopped ∷ []
stop_spinner false = []

unfoldable pub end : Status → Status
end s = if s.status == "" then s else record s {
  status = "";
  message_queue = [];
  output =
      s.output
      ++ (stop_spinner s.has_spinner
          ++ (ended_as (result_from_messages s.message_queue) s.status
              ∷ map shown s.message_queue));
}

abbrev pub begin_line : Bool → String → Line
begin_line true message = spinning message
begin_line false message = begun message

unfoldable pub start : String → Status → Status
start message s =
    let ended = end s in
    record ended {
      status = message;
      output = ended.output ++ (begin_line ended.has_spinner message ∷ []);
    }

-- Failure, Success and Warning, of a format and what it is formatted to.
unfoldable pub report : ResultType → String → String → Status → Status
report kind format message s =
    if format == ""
    then s
    else if s.status == ""
    then record s { output = s.output ++ (shown (kind, message) ∷ []) }
    else record s { message_queue = s.message_queue ++ ((kind, message) ∷ []) }

-- A use of the reporter.
pub data Call : Type 0 where
  start_call : String → Call
  report_call : ResultType → String → String → Call
  end_call : Call

unfoldable pub apply_call : Call → Status → Status
apply_call (start_call message) s = start message s
apply_call (report_call kind format message) s = report kind format message s
apply_call end_call s = end s

unfoldable pub apply_calls : List Call → Status → Status
apply_calls [] s = s
apply_calls (c ∷ cs) s = apply_calls cs (apply_call c s)
