-- ===== src/Kube.antt =====
-- The clients of the Kubernetes API, as the commands that change a cluster use them. What a call
-- answers is a function of the call and of the log of all calls before it.
pub mod Samples
use subctl.Base.{
  String, String_eq, Bool, true, false, ℕ, List, [], ◌∷◌, Option, none, some, if◌then◌else◌,
}
use subctl.Base.Dict.{Dict, lookup}
use subctl.Base.Effect.{
  Error, Result, Event, call, remote, Verb, Resource, Log, Run, ask, pure, fail, on_error, or_wrap,
  is_already_exists, emit, succeeded, ◌>>=◌,
}

pub record Secret : Type 0 where
  pub secret_name : String
  pub annotations : Dict String String
  pub content : Dict String String

-- A Go map answers "" for a missing key.
abbrev pub get_or_empty : Option String → String
get_or_empty none = ""
get_or_empty (some v) = v

abbrev pub data_of : Secret → String → String
data_of s k = get_or_empty (lookup k s.content)

-- The calls of one cluster: `remote_cluster` says that it is the broker's.
pub record Client : Type 0 where
  pub remote_cluster : Bool
  -- A call that answers with an error or nothing.
  pub done : Verb → Resource → String → String → Log → Result (Unit {0})
  -- One that also says whether it created something.
  pub created : Verb → Resource → String → String → Log → Result Bool
  pub secret : Verb → Resource → String → String → Log → Result Secret
  -- CreateAnew of a secret in a namespace: the object that was created.
  pub replace_secret : Secret → String → Log → Result Secret
  pub secrets : Verb → Resource → String → String → Log → Result (List Secret)

abbrev pub event : Client → Verb → Resource → String → String → Event
event c v r ns n = if c.remote_cluster then remote v r ns n else call v r ns n

unfoldable pub request : Client → Verb → Resource → String → String → Run (Unit {0})
unfolding ask
request c v r ns n = ask (event c v r ns n) (c.done v r ns n)

unfoldable pub request_created : Client → Verb → Resource → String → String → Run Bool
unfolding ask
request_created c v r ns n = ask (event c v r ns n) (c.created v r ns n)

unfoldable pub request_secret : Client → Verb → Resource → String → String → Run Secret
unfolding ask
request_secret c v r ns n = ask (event c v r ns n) (c.secret v r ns n)

unfoldable pub request_secrets : Client → Verb → Resource → String → String → Run (List Secret)
unfolding ask
request_secrets c v r ns n = ask (event c v r ns n) (c.secrets v r ns n)

-- `if created, err := …; err != nil { return err } else if created { status.Success(…) }`
unfoldable pub report_created : String → Run Bool → Run (Unit {0})
unfolding ◌>>=◌ emit pure
report_created message m = m >>= λ made. if made then emit (succeeded message []) else pure tt
