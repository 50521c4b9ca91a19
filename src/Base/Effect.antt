-- ===== src/Base/Effect.antt =====
-- Go code that calls the reporter (admiral's `reporter.Interface`) and the Kubernetes API. Neither is
-- in the repository. A run carries the log of the calls made so far, newest first; what a call answers
-- is a function of that log which the theorems leave open, so the API server is arbitrary and may
-- change with every call.
use Prim.Native.String.{String}
use mathlib.Core.Bool.{Bool, true, false}
use mathlib.Core.List.{List, [], ◌∷◌, ◌++◌}
use mathlib.Core.Option.{Option, none, some}
use subctl.Base.Tests.{if◌then◌else◌}

-- What the libraries' predicates say of an error: `IsNotFound`, `IsAlreadyExists`, `IsConflict`,
-- `wait.Interrupted`, `IsUnknownAuthorityError`, or none of them.
pub data Cause : Type 0 where
  not_found already_exists conflict interrupted unknown_authority unspecified : Cause
  -- admiral's `IsMissingNamespaceErr`, with the namespace: the API server answers it as a NotFound.
  missing_namespace : String → Cause

-- Wrapping an error puts a message in front, and keeps its cause.
pub record Error : Type 0 where
  pub cause : Cause
  pub messages : List String

-- `errors.New`
abbrev pub new_error : String → Error
new_error m = record { cause = unspecified; messages = m ∷ [] }

abbrev pub wrap : String → Error → Error
wrap m e = record e { messages = m ∷ e.messages }

abbrev pub is_not_found_cause : Cause → Bool
is_not_found_cause not_found = true
is_not_found_cause (missing_namespace _) = true
is_not_found_cause _ = false

abbrev pub is_already_exists_cause : Cause → Bool
is_already_exists_cause already_exists = true
is_already_exists_cause _ = false

abbrev pub is_unknown_authority_cause : Cause → Bool
is_unknown_authority_cause unknown_authority = true
is_unknown_authority_cause _ = false

abbrev pub is_unknown_authority : Error → Bool
is_unknown_authority e = is_unknown_authority_cause e.cause

abbrev pub is_interrupted_cause : Cause → Bool
is_interrupted_cause interrupted = true
is_interrupted_cause _ = false

abbrev pub is_not_found : Error → Bool
is_not_found e = is_not_found_cause e.cause

abbrev pub is_already_exists : Error → Bool
is_already_exists e = is_already_exists_cause e.cause

abbrev pub is_interrupted : Error → Bool
is_interrupted e = is_interrupted_cause e.cause

pub data Result (A : Type 0) : Type 0 where
  ok : A → Result A
  err : Error → Result A

pub data Verb : Type 0 where
  get list create update delete patch : Verb
  -- admiral's CreateOrUpdate and CreateAnew, the latter a deletion and a creation.
  apply replace : Verb

pub data Resource : Type 0 where
  submariner service_discovery broker endpoint cluster gateway route_agent : Resource
  node namespace crd cluster_role cluster_role_binding role role_binding : Resource
  pod secret service_account deployment daemon_set service service_export : Resource
  operator submariner_crds lighthouse_crds global_cidr clusterset_cidr finalizer : Resource
  client broker_cr config_map cluster_egress_ip egress_ip ingress_ip server_version : Resource
  security_constraints service_import endpoint_slice ip_pool : Resource

-- Reporter calls with their format and arguments, and calls of the API by verb, kind of resource,
-- namespace, and name or selector.
pub data Event : Type 0 where
  started succeeded failed warned errored : String → List String → Event
  ended : Event
  call : Verb → Resource → String → String → Event
  -- A call of the broker's API server, where a command works on two clusters.
  remote : Verb → Resource → String → String → Event

abbrev pub Log : Type 0
Log = List Event

abbrev pub Run : Type 0 → Type 0
Run A = Log → Result A × Log

unfoldable pub pure : {A : Type 0} → A → Run A
pure a log = (ok a, log)

unfoldable pub fail : {A : Type 0} → Error → Run A
fail e log = (err e, log)

abbrev pub bind_from : {A B : Type 0} → Result A × Log → (A → Run B) → Result B × Log
bind_from (ok a, log) f = f a log
bind_from (err e, log) f = (err e, log)

infixl 5 ◌>>=◌ ◌>>◌
unfoldable pub ◌>>=◌ : {A B : Type 0} → Run A → (A → Run B) → Run B
◌>>=◌ m f log = bind_from (m log) f

abbrev pub ◌>>◌ : {A B : Type 0} → Run A → Run B → Run B
m >> k = m >>= λ _. k

-- A call whose answer the environment chooses.
unfoldable pub ask : {A : Type 0} → Event → (Log → Result A) → Run A
ask e f log = (f log, e ∷ log)

unfoldable pub emit : Event → Run (Unit {0})
emit e log = (ok tt, e ∷ log)

-- What a function that neither reports nor calls the API returns.
unfoldable pub lift : {A : Type 0} → Result A → Run A
lift r log = (r, log)

-- A call whose error the code looks at, with what it does next in either case.
abbrev pub case_from :
    {A B : Type 0} → Result A × Log → (A → Run B) → (Error → Run B) → Result B × Log
case_from (ok a, log) f g = f a log
case_from (err e, log) f g = g e log

unfoldable pub on_error : {A B : Type 0} → Run A → (A → Run B) → (Error → Run B) → Run B
on_error m f g log = case_from (m log) f g

-- `if err != nil { return errors.Wrap(err, message) }`
unfoldable pub or_wrap : {A : Type 0} → String → Run A → Run A
unfolding on_error pure fail
or_wrap message m = on_error m (λ a. pure a) (λ e. fail (wrap message e))

-- `return status.Error(err, format, args...)` for an error: it is reported, and returned wrapped.
unfoldable pub report_error : {A : Type 0} → String → List String → Error → Run A
unfolding ◌>>=◌ emit fail
report_error format args e = emit (errored format args) >>= λ _. fail (wrap format e)

-- `if err != nil { return status.Error(err, format, args...) }`
unfoldable pub or_report : {A : Type 0} → String → List String → Run A → Run A
unfolding on_error pure report_error
or_report format args m = on_error m (λ a. pure a) (λ e. report_error format args e)

-- `if err != nil && !IsNotFound(err) { … }`: an error of that cause is passed over.
unfoldable pub ignore_not_found : Run (Unit {0}) → Run (Unit {0})
unfolding on_error pure fail
ignore_not_found m = on_error m (λ _. pure tt) (λ e. if is_not_found e then pure tt else fail e)

-- The same for `!IsAlreadyExists(err)`.
unfoldable pub ignore_already_exists : Run (Unit {0}) → Run (Unit {0})
unfolding on_error pure fail
ignore_already_exists m =
    on_error m (λ _. pure tt) (λ e. if is_already_exists e then pure tt else fail e)

-- `defer status.End()`
abbrev pub end_from : {A : Type 0} → Result A × Log → Result A × Log
end_from (r, log) = (r, ended ∷ log)

unfoldable pub deferring_end : {A : Type 0} → Run A → Run A
deferring_end m log = end_from (m log)

-- `defer cleanup()` for a clean-up whose result is not looked at.
abbrev pub after_from : {A : Type 0} → Run (Unit {0}) → Result A × Log → Result A × Log
after_from cleanup (r, log) = (r, (cleanup log).1)

unfoldable pub deferring : {A : Type 0} → Run (Unit {0}) → Run A → Run A
deferring cleanup m log = after_from cleanup (m log)

-- k8s.io/apimachinery's NewAggregate: no error where all are nil, and otherwise one with the messages of
-- all. It has none of the causes that are tested for.
abbrev pub aggregated : List (Option Error) → Option Error
aggregated [] = none
aggregated (none ∷ es) = aggregated es
aggregated (some e ∷ es) = elim (aggregated es) [
  | none ↦ some (record { cause = unspecified; messages = e.messages })
  | some f ↦ some (record { cause = unspecified; messages = e.messages ++ f.messages })
]

abbrev pub fail_if : Option Error → Run (Unit {0})
fail_if none log = (ok tt, log)
fail_if (some e) log = (err e, log)

unfoldable pub aggregate : List (Option Error) → Run (Unit {0})
aggregate es = fail_if (aggregated es)

-- `for … { if err := body(x); err != nil { return err } }`
unfoldable pub for_each : {A : Type 0} → (A → Run (Unit {0})) → List A → Run (Unit {0})
unfolding pure ◌>>=◌
for_each body [] = pure tt
for_each body (x ∷ xs) = body x >>= λ _. for_each body xs
