-- ===== src/Kube/Samples.antt =====
-- A cluster for the tests: every call succeeds, and the secret of each service account is listed only
-- after the service account was applied.
use subctl.Base.{String, true, false, [], ◌∷◌}
use subctl.Base.Effect.{ok, Log}
use subctl.Kube.{Secret, Client}

-- A secret without a token, as it is just after its creation.
abbrev pub fresh_secret : String → Secret
fresh_secret name = record { secret_name = name; annotations = []; content = [] }

abbrev pub token_secret : String → Secret
token_secret sa = record {
  secret_name = sa;
  annotations = ("kubernetes.io/service-account.name", sa) ∷ [];
  content = ("token", "t0k3n") ∷ ("ca.crt", "ca") ∷ ("namespace", "broker-ns") ∷ [];
}

-- The token is there from the second call on.
abbrev answer_secret : String → Log → Secret
answer_secret name [] = fresh_secret name
answer_secret name (_ ∷ []) = fresh_secret name
answer_secret name (_ ∷ _ ∷ _) = token_secret name

abbrev pub friendly_client : Client
friendly_client = record {
  remote_cluster = false;
  done = λ v r ns n log. ok tt;
  created = λ v r ns n log. ok true;
  secret = λ v r ns n log. ok (answer_secret n log);
  replace_secret = λ s ns log. ok s;
  secrets = λ v r ns n log. ok [];
}
