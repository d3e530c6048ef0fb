-- ===== src/Http.antt =====
-- ServiceUtil of src/shared/utils/service.util.ts, as far as it sends requests. The services take what
-- these answer as parameters.
use aura_explorer_api.Prelude.{
  ℕ, String, Bool, false, ◌≡◌, refl, Option, none, some, ltb, truthy, text_or_empty, if◌then◌else◌,
}
use aura_explorer_api.Prelude.Text.{◌<>◌}
use aura_explorer_api.Exec.{failure, Result, ok, err}

-- axios and the HttpService of @nestjs/axios: the body of the response, or an exception. `errors` is
-- the length of the errors that a body has.
pub record Http (Query Body : Type 0) : Type 0 where
  pub axios : String → String → Query → Result (Option Body)
  pub get : String → Result (Option Body)
  pub get_with : String → Query → Result (Option Body)
  pub errors : Body → Option ℕ
  pub graph_ql : String

abbrev or_default : Option String → String → String
or_default given default = if truthy given then text_or_empty given else default

abbrev has_errors : Option ℕ → Bool
has_errors none = false
has_errors (some n) = ltb 0 n

-- `null` where an exception is caught. A body that is undefined is answered in the same way.
abbrev or_null_body : {Body : Type 0} → Result (Option Body) → Option Body
or_null_body (err _) = none
or_null_body (ok body) = body

module _ {Query Body : Type 0} (http : Http Query Body) where
  abbrev without_errors : Option Body → Option Body
  without_errors none = none
  without_errors (some body) = if has_errors (http.errors body) then none else some body

  pub fetch_data_from_graph_ql : Query → Option String → Option String → Option Body
  fetch_data_from_graph_ql query endpoint method = without_errors (
      or_null_body
        (http.axios (or_default endpoint http.graph_ql) (or_default method "POST") query))

  pub get_data_api : String → String → Option Body
  get_data_api api params = or_null_body (http.get (api <> params))

  -- The promise is returned out of the `try`, so an exception is not caught.
  pub get_data_api_with_header : String → String → Query → Result (Option Body)
  get_data_api_with_header api params headers = http.get_with (api <> params) headers

-- A server that answers with its URL, and fails for one.
abbrev server : Http String String
server = record {
  axios = λ url method query. ok (some url);
  get = λ url. err (failure "timeout");
  get_with = λ url headers. err (failure "timeout");
  errors = λ body. some 0;
  graph_ql = "https://indexer";
}

fetch_test : fetch_data_from_graph_ql server "q" none none ≡ some "https://indexer"
unfolding fetch_data_from_graph_ql
fetch_test = refl

failed_test : get_data_api server "https://lcd/" "x" ≡ none
unfolding get_data_api
failed_test = refl

uncaught_test : get_data_api_with_header server "https://lcd/" "x" "h" ≡ err (failure "timeout")
unfolding get_data_api_with_header
uncaught_test = refl
