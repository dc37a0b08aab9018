-- ===== src/Fraudctl/Paths.antt =====
-- The paths of fraudctl, and the endpoints of the server.
use mathlib.Core.List.{append-nil}
use text.Mathlib.TextLemmas.{append_assoc}
use learn_go_project.Prelude.{
  String, ◌≡◌, refl, ◌∙◌, ap, sym, Bool-cases, inl, inr, false, ◌==◌, eq_iff, eq_refl, some, List,
  [], ◌∷◌, ◌++◌, concat,
}
use learn_go_project.Errors.{ok}
use learn_go_project.HttpApi.Handlers.{Request}
use learn_go_project.HttpApi.Routes.{
  Endpoint, on_list, on_get, on_model_metrics, Found, IsHttp, routes, patterns, endpoint_of,
  request_of, found_endpoint, route, is_cleaned, value_of, no_value,
}
use learn_go_project.Fraudctl.{
  FlagSet, int_flag, text_flag, list_flags, stats_flags, Packages, set_value, list_values,
  list_path, stats_query, stats_path, show_path, command_path,
}

-- The request of an endpoint without parameters.
abbrev pub no_parameters : Request
no_parameters = record { limit = ""; action = ""; cursor = ""; model_version = ""; id = "" }

module _ {V : Type 0} (packages : Packages V) where
  -- What the arguments of a command mean: the endpoint, and what it is to read.
  pub data Asks : List String → Endpoint → Request → Type 0 where
    asks_list :
        (arguments : List String) (s : FlagSet) (more : List String)
        → packages.parse_flags list_flags arguments ≡ ok (s, more)
        → Asks ("list" ∷ arguments) on_list (record no_parameters {
          limit = packages.sprint (int_flag "limit" s.ints);
          action = text_flag "action" s.texts;
          cursor = text_flag "cursor" s.texts;
        })
    asks_show :
        (id : String)
        → is_cleaned id ≡ false
        → Asks ("show" ∷ id ∷ []) on_get (record no_parameters { id = id })
    asks_stats :
        (arguments : List String) (s : FlagSet) (more : List String)
        → packages.parse_flags stats_flags arguments ≡ ok (s, more)
        → Asks
            ("stats" ∷ arguments)
            on_model_metrics
            (record no_parameters { model_version = text_flag "model-version" s.texts })

  module _ (laws : IsHttp packages.http) where
    -- A request that is found comes to the endpoint of its pattern.
    route_found :
        (target : String) (found : Found) (e : Endpoint)
        → packages.http.find (patterns routes) "GET" target ≡ some found
        → endpoint_of found.pattern routes ≡ some e
        → route packages.http "GET" target ≡ some (e, request_of found)
    unfolding route
    route_found target found e h k = ap (found_endpoint routes) h ∙ rw k

    -- A value that is not set reads as the empty one that it is.
    value_of-set_value_same :
        (key value : String) (rest : List (String × String))
        → value_of key rest ≡ ""
        → value_of key (set_value packages key value ++ rest) ≡ value
    value_of-set_value_same key value rest h = elim (Bool-cases (value == "")) [
      | inl nothing ↦ rw nothing (h ∙ sym ((eq_iff value "").0 nothing))
      | inr something ↦ rw something (rw (eq_refl key) refl)
    ]

    value_of-set_value_other :
        (key other value : String) (rest : List (String × String))
        → (other == key) ≡ false
        → value_of key (set_value packages other value ++ rest) ≡ value_of key rest
    value_of-set_value_other key other value rest h = elim (Bool-cases (value == "")) [
      | inl nothing ↦ rw nothing refl
      | inr something ↦ rw something (rw h refl)
    ]

    value_of-last :
        (key other value : String)
        → (other == key) ≡ false
        → value_of key (set_value packages other value) ≡ ""
    value_of-last key other value h = elim (Bool-cases (value == "")) [
      | inl nothing ↦ rw nothing refl
      | inr something ↦ rw something (rw h refl)
    ]

    module _ (action cursor : String) where
      abbrev optional_values : List (String × String)
      optional_values = set_value packages "action" action ++ set_value packages "cursor" cursor

      action_read : value_of "action" optional_values ≡ action
      action_read =
          value_of-set_value_same "action" action (set_value packages "cursor" cursor)
            (value_of-last "action" "cursor" cursor refl)

      cursor_read : value_of "cursor" optional_values ≡ cursor
      cursor_read =
          value_of-set_value_other "cursor" "action" action (set_value packages "cursor" cursor)
            refl
          ∙ ap (value_of "cursor") (sym (append-nil (set_value packages "cursor" cursor)))
          ∙ value_of-set_value_same "cursor" cursor [] refl

      version_read : value_of "model_version" optional_values ≡ ""
      version_read =
          value_of-set_value_other "model_version" "action" action
            (set_value packages "cursor" cursor) refl
          ∙ value_of-last "model_version" "cursor" cursor refl

    -- The query of `list`, as its endpoint reads it.
    request_of-list :
        (s : FlagSet)
        → request_of (record {
          pattern = "GET /v1/transactions";
          path_value = no_value;
          query = packages.http.query_value (packages.http.encode_values (list_values packages s));
        })
          ≡ record no_parameters {
            limit = packages.sprint (int_flag "limit" s.ints);
            action = text_flag "action" s.texts;
            cursor = text_flag "cursor" s.texts;
          }
    unfolding list_values
    request_of-list s =
        let action = text_flag "action" s.texts in
        let cursor = text_flag "cursor" s.texts in
        let read = laws.keeps_values (list_values packages s) in
        λ i. record {
          limit = read "limit" i;
          action = (read "action" ∙ action_read action cursor) i;
          cursor = (read "cursor" ∙ cursor_read action cursor) i;
          model_version = (read "model_version" ∙ version_read action cursor) i;
          id = "";
        }

    route-list :
        (s : FlagSet) (more : List String)
        → route packages.http "GET" (list_path packages (s, more))
          ≡ some (
            on_list,
            record no_parameters {
              limit = packages.sprint (int_flag "limit" s.ints);
              action = text_flag "action" s.texts;
              cursor = text_flag "cursor" s.texts;
            },
          )
    unfolding list_path routes endpoint_of
    route-list s more =
        let query = packages.http.encode_values (list_values packages s) in
        ap (route packages.http "GET") (append_assoc "/v1/transactions" "?" query)
        ∙ route_found _ _ on_list (laws.finds_query query).1.1.0 refl
        ∙ ap (λ (r : Request). some (on_list, r)) (request_of-list s)

    route-show :
        (id : String)
        → is_cleaned id ≡ false
        → route packages.http "GET" (concat "/v1/transactions/" (packages.http.path_escape id))
          ≡ some (on_get, record no_parameters { id = id })
    unfolding routes endpoint_of
    route-show id h = route_found _ _ on_get (laws.finds_segment id h) refl

    request_of-stats :
        (version : String)
        → request_of (record {
          pattern = "GET /v1/model-metrics";
          path_value = no_value;
          query =
              packages.http.query_value
                (concat "model_version=" (packages.http.query_escape version));
        })
          ≡ record no_parameters { model_version = version }
    request_of-stats version =
        let read = laws.keeps_value version in
        λ i. record {
          limit = read "limit" i;
          action = read "action" i;
          cursor = read "cursor" i;
          model_version = read "model_version" i;
          id = "";
        }

    route-stats :
        (version : String)
        → route packages.http "GET" (stats_query packages version)
          ≡ some (on_model_metrics, record no_parameters { model_version = version })
    unfolding routes endpoint_of
    route-stats version = elim (Bool-cases (version == "")) [
      | inl nothing ↦ rw nothing (
          route_found _ _ on_model_metrics laws.finds_path.1.1.1.0 refl
          ∙ ap (λ (v : String). some (on_model_metrics, record no_parameters { model_version = v }))
              (sym ((eq_iff version "").0 nothing)))
      | inr something ↦ rw something (
          let query = concat "model_version=" (packages.http.query_escape version) in
          ap (λ (t : String). route packages.http "GET" (concat "/v1/model-metrics" t))
            (append_assoc "?" "model_version=" (packages.http.query_escape version))
          ∙ route_found _ _ on_model_metrics (laws.finds_query query).1.1.1.0 refl
          ∙ ap (λ (r : Request). some (on_model_metrics, r)) (request_of-stats version))
    ]

    -- What a command of fraudctl asks for is what the endpoint reads: a command whose flags are
    -- parsed has a path, and the server hands a GET of it to the endpoint that the command means,
    -- with the values of its flags or its id as they were. Condition on an id: it is not empty, "."
    -- or "..".
    pub command_path-route :
        (arguments : List String) (e : Endpoint) (r : Request)
        → Asks arguments e r
        → (path : String) × (command_path packages arguments ≡ ok path)
          × (route packages.http "GET" path ≡ some (e, r))
    unfolding command_path show_path stats_path
    command_path-route _ _ _ (asks_list arguments s more h) =
        (list_path packages (s, more), rw h refl, route-list s more)
    command_path-route _ _ _ (asks_show id h) =
        (concat "/v1/transactions/" (packages.http.path_escape id), refl, route-show id h)
    command_path-route _ _ _ (asks_stats arguments s more h) =
        (stats_path packages (s, more), rw h refl, route-stats (text_flag "model-version" s.texts))
