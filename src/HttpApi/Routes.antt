-- ===== src/HttpApi/Routes.antt =====
-- `New` of internal/httpapi/server.go: the patterns that the server registers, and the endpoint of
-- each. How ServeMux of net/http matches a request is an argument.
use learn_go_project.Prelude.{
  String, Bool, ◌≡◌, ◌||◌, false, ◌==◌, Option, none, some, List, [], ◌∷◌, map, concat, All,
  if◌then◌else◌,
}
use learn_go_project.Errors.{Result}
use learn_go_project.Service.Snapshot.{PipelineMetrics}
use learn_go_project.HttpApi.Wire.{Wire}
use learn_go_project.HttpApi.Handlers.{
  Repository, Request, Response, health, ready, dashboard, list_transactions, get_transaction,
  model_metrics_handler, pipeline_metrics_handler,
}

pub data Endpoint : Type 0 where
  on_dashboard on_health on_ready on_list on_get on_model_metrics : Endpoint
  on_pipeline_metrics on_metrics : Endpoint

-- the patterns, as `New` registers them
unfoldable pub routes : List (String × Endpoint)
routes =
    ("GET /{$}", on_dashboard)
    ∷ ("GET /healthz", on_health)
    ∷ ("GET /readyz", on_ready)
    ∷ ("GET /v1/transactions", on_list)
    ∷ ("GET /v1/transactions/{id}", on_get)
    ∷ ("GET /v1/model-metrics", on_model_metrics)
    ∷ ("GET /v1/pipeline-metrics", on_pipeline_metrics)
    ∷ ("GET /metrics", on_metrics)
    ∷ []

-- What the multiplexer found: the pattern, PathValue and Query().Get.
pub record Found : Type 0 where
  pub pattern : String
  pub path_value : String → String
  pub query : String → String

-- net/http and net/url
pub record Http : Type 0 where
  -- ServeMux with the patterns registered, by the method and the target of a request; none if it
  -- answers by itself, that nothing is found or that the path is another
  pub find : List String → String → String → Option Found
  -- url.ParseQuery and Get, url.Values.Encode, url.QueryEscape, url.PathEscape
  pub query_value : String → String → String
  pub encode_values : List (String × String) → String
  pub query_escape : String → String
  pub path_escape : String → String

unfoldable pub endpoint_of : String → List (String × Endpoint) → Option Endpoint
endpoint_of pattern [] = none
endpoint_of pattern ((p, e) ∷ rest) = if p == pattern then some e else endpoint_of pattern rest

-- What an endpoint reads of a request.
abbrev pub request_of : Found → Request
request_of found = record {
  limit = found.query "limit";
  action = found.query "action";
  cursor = found.query "cursor";
  model_version = found.query "model_version";
  id = found.path_value "id";
}

abbrev pub patterns : List (String × Endpoint) → List String
patterns table = map (λ r. r.0) table

abbrev pub with_endpoint : Found → Option Endpoint → Option (Endpoint × Request)
with_endpoint found none = none
with_endpoint found (some e) = some (e, request_of found)

abbrev pub found_endpoint : List (String × Endpoint) → Option Found → Option (Endpoint × Request)
found_endpoint table none = none
found_endpoint table (some found) = with_endpoint found (endpoint_of found.pattern table)

-- The endpoint that a request comes to, and what it reads.
unfoldable pub route : Http → String → String → Option (Endpoint × Request)
unfolding routes endpoint_of
route http method target = found_endpoint routes (http.find (patterns routes) method target)

-- What `New` is given, but for the logger and the address.
pub record Server (F : Type 0) : Type 0 where
  pub wire : Wire
  pub repository : Repository F
  pub page : Result String
  pub pipeline_metrics : Result (PipelineMetrics F)

-- An answer: of an endpoint, of the metrics' own handler, or of the multiplexer.
pub data Answer (F : Type 0) : Type 0 where
  respond : Response F → Answer F
  prometheus : Answer F
  unrouted : Answer F

module _ {F : Type 0} (s : Server F) where
  unfoldable pub handle : Endpoint → Request → Answer F
  unfolding ready dashboard list_transactions get_transaction model_metrics_handler
      pipeline_metrics_handler
  handle on_dashboard r = respond (dashboard s.page)
  handle on_health r = respond health
  handle on_ready r = respond (ready s.repository)
  handle on_list r = respond (list_transactions s.wire s.repository r)
  handle on_get r = respond (get_transaction s.repository r)
  handle on_model_metrics r = respond (model_metrics_handler s.repository r)
  handle on_pipeline_metrics r = respond (pipeline_metrics_handler s.pipeline_metrics)
  handle on_metrics r = prometheus

  abbrev pub handle_routed : Option (Endpoint × Request) → Answer F
  handle_routed none = unrouted
  handle_routed (some (e, r)) = handle e r

  -- The answer to a request.
  unfoldable pub serve : Http → String → String → Answer F
  unfolding route handle
  serve http method target = handle_routed (route http method target)

-- A last segment that reaches no wildcard: it is empty, or the path is cleaned of it.
abbrev pub is_cleaned : String → Bool
is_cleaned s = s == "" || s == "." || s == ".."

-- The first value of a key, "" if it has none.
abbrev pub value_of : String → List (String × String) → String
value_of key [] = ""
value_of key ((k, v) ∷ rest) = if k == key then v else value_of key rest

abbrev pub no_value : String → String
no_value key = ""

-- The paths that are registered as they are.
abbrev pub literal_paths : List String
literal_paths =
    "/healthz" ∷ "/readyz" ∷ "/v1/transactions" ∷ "/v1/model-metrics" ∷ "/v1/pipeline-metrics"
    ∷ "/metrics" ∷ []

-- The documented behaviour that proofs rest on.
pub record IsHttp (http : Http) : Type 0 where
  -- a path that is registered as it is, with and without a query
  pub finds_path :
      All
        (λ path.
          http.find (patterns routes) "GET" path
          ≡ some (record { pattern = concat "GET " path; path_value = no_value; query = no_value }))
        literal_paths
  pub finds_query :
      (query : String)
      → All
          (λ path.
            http.find (patterns routes) "GET" (concat path (concat "?" query))
            ≡ some (record {
              pattern = concat "GET " path;
              path_value = no_value;
              query = http.query_value query;
            }))
          literal_paths
  -- a last segment that stands for a wildcard, in its escaped form
  pub finds_segment :
      (segment : String)
      → is_cleaned segment ≡ false
      → http.find (patterns routes) "GET" (concat "/v1/transactions/" (http.path_escape segment))
        ≡ some (record {
          pattern = "GET /v1/transactions/{id}";
          path_value = λ name. if name == "id" then segment else "";
          query = no_value;
        })
  -- what is encoded is parsed as it was
  pub keeps_values :
      (values : List (String × String)) (key : String)
      → http.query_value (http.encode_values values) key ≡ value_of key values
  pub keeps_value :
      (value key : String)
      → http.query_value (concat "model_version=" (http.query_escape value)) key
        ≡ (if key == "model_version" then value else "")
