-- ===== src/Tests/Client.antt =====
-- fraudctl at concrete inputs, against the server of the other tests.
use learn_go_project.Prelude.{
  String, ◌≡◌, true, false, ◌⊎◌, has_key, refl, ◌∙◌, ap, Option, none, some, [], ◌∷◌, concat,
  has_char, trim_slashes,
}
use learn_go_project.Errors.{text, Result, ok, err}
use learn_go_project.Float.{Whole, whole_float}
use learn_go_project.HttpApi.Handlers.{Body, Response}
use learn_go_project.HttpApi.Pages.{repository, no_outage}
use learn_go_project.HttpApi.Routes.{
  on_list, Server, Answer, respond, prometheus, unrouted, route, serve,
}
use learn_go_project.Fraudctl.{
  text_flag, global_flags, list_flags, Reply, Packages, command_path, service_returned, lay_out,
  run,
}
use learn_go_project.Fraudctl.Paths.{no_parameters, asks_list, command_path-route}
use learn_go_project.Fraudctl.Answers.{reply_of}
use learn_go_project.Fraudctl.Service.{IsStored, Reachable-show}
use learn_go_project.Domain.{TransactionRecord}
use learn_go_project.Store.Tables.{transaction_key}
use learn_go_project.Tests.Sample.{platform, platform-IsPlatform, processor}
use learn_go_project.Tests.Times.{wire}
use learn_go_project.Tests.Web.{strip, strip-concat, http, http-IsHttp}
use learn_go_project.Tests.System.{flushed_twice, four_steps}

abbrev server : Server Whole
server = record {
  wire = wire;
  repository = repository platform no_outage flushed_twice.world.tables;
  page = ok "<html>";
  pipeline_metrics = err (text "no registry");
}

-- A body is the id of its transaction's assessment.
abbrev json : Body Whole → String
json (Body.transaction found) = found.assessment.event_id
json _ = ""

abbrev answered : Answer Whole → Result Reply
answered (respond response) = ok (record { code = response.code; body = ok (json response.body) })
answered prometheus = err (text "no metrics")
answered unrouted = ok (record { code = 404; body = ok "404 page not found" })

abbrev url : String
url = "http://localhost:8080"

abbrev served : Option String → Result Reply
served none = err (text "no such host")
served (some path) = answered (serve server http "GET" path)

abbrev packages : Packages String
packages = record {
  http = http;
  parse_flags = λ flags arguments. ok (flags, arguments);
  sprint = λ n. "20";
  get = λ target. served (strip url target);
  unmarshal = ok;
  indent = λ value. value;
}

command_path-route_example :
    (path : String) × (command_path packages ("list" ∷ []) ≡ ok path)
    × (route http "GET" path ≡ some (on_list, record no_parameters { limit = "20" }))
unfolding text_flag
command_path-route_example =
    command_path-route packages http-IsHttp ("list" ∷ []) on_list
      (record no_parameters { limit = "20" }) (asks_list [] list_flags [] refl)

reaches :
    (path : String) (response : Response Whole)
    → serve server http "GET" path ≡ respond response
    → packages.get (concat (trim_slashes url) path) ≡ ok (reply_of json packages response)
unfolding trim_slashes
reaches path response h = ap served (strip-concat url path) ∙ ap answered h

Reachable-show_example :
    ((has_key transaction_key "tx-1" flushed_twice.world.tables.transactions ≡ false)
      × (run packages ("show" ∷ "tx-1" ∷ []) ≡ err service_returned))
    ⊎ ((has_key transaction_key "tx-1" flushed_twice.world.tables.transactions ≡ true)
        × ((found : TransactionRecord Whole) × IsStored platform flushed_twice.world.tables "tx-1"
              found
            × (run packages ("show" ∷ "tx-1" ∷ [])
                ≡ lay_out packages (json (Body.transaction found)))))
unfolding text_flag has_char
Reachable-show_example =
    Reachable-show processor platform-IsPlatform json packages http-IsHttp flushed_twice four_steps
      server refl ("show" ∷ "tx-1" ∷ []) global_flags "tx-1" refl refl refl reaches
