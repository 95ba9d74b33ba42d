-- ===== src/Web/Docs.antt =====
-- internal/presentation/webhandlers/docs.go: the documentation of the API.
pub mod Parameters
use paste_thek4n_ru.Prelude.{ℕ, Bool, true, false, List, [], ◌∷◌, ◌++◌, if◌then◌else◌}
use paste_thek4n_ru.Prelude.Int.{ℤ}
use paste_thek4n_ru.Prelude.Bytes.{Bytes, codes}
use paste_thek4n_ru.Exec.{Exec, outcome}
use paste_thek4n_ru.Config.{CacheValidationConfig}
use paste_thek4n_ru.Std.Itoa.{itoa}
use paste_thek4n_ru.Web.Request.{Request, detect_proto}
use paste_thek4n_ru.Web.Answers.{ResponseWriter}

pub data ParameterLocation : Type 0 where
  in_query in_path in_header in_body : ParameterLocation

pub data HttpMethod : Type 0 where
  method_get method_post method_put method_delete method_patch : HttpMethod

pub record Parameter : Type 0 where
  pub name : Bytes
  pub type : Bytes
  pub location : ParameterLocation
  pub required : Bool
  pub description : Bytes
  pub default : Bytes

pub record Endpoint : Type 0 where
  pub id : Bytes
  pub method : HttpMethod
  pub path : Bytes
  pub description : Bytes
  pub parameters : List Parameter
  pub request_example : Bytes
  pub response_example : Bytes

pub record Section : Type 0 where
  pub name : Bytes
  pub description : Bytes
  pub endpoints : List Endpoint

pub record ApiDoc : Type 0 where
  pub title : Bytes
  pub description : Bytes
  pub base_url : Bytes
  pub version : Bytes
  pub sections : List Section

abbrev pub get_key_path_parameter : List Parameter
get_key_path_parameter =
    record {
      name = codes "key";
      type = codes "string";
      location = in_path;
      required = true;
      description = codes "Key to request.";
      default = [];
    }
    ∷ []

-- An optional parameter in the query.
abbrev in_query_of : Bytes → Bytes → Bytes → Bytes → Parameter
in_query_of name type description default = record {
  name = name;
  type = type;
  location = in_query;
  required = false;
  description = description;
  default = default;
}

-- The endpoint of the healthcheck has no parameters; no endpoint has an example of a request.
abbrev pub build_healthcheck_section : Bytes → Section
build_healthcheck_section version = record {
  name = codes "Healthcheck";
  description = codes "Healthcheck operations";
  endpoints =
      record {
        id = codes "healthcheck";
        method = method_get;
        path = codes "/health";
        description = codes "Healthcheck service";
        parameters = [];
        request_example = [];
        response_example =
            codes "{\n\t\"version\": \""
            ++ version
            ++ codes "\",\n\t\"availability\": true,\n\t\"msg\": \"ok\"\n}";
      }
      ∷ [];
}

-- `duration_string` is time.Duration.String.
module _ (cfg : CacheValidationConfig) (duration_string : ℤ → Bytes) where
  unfoldable pub get_create_record_parameters : List Parameter
  get_create_record_parameters =
      in_query_of (codes "ttl") (codes "time")
        (codes
          "TTL - time to live of created key. Examples 3h, 30m, 60s. Authorized apikeys can set persist key by providing ttl parameter as 0")
        (duration_string cfg.default_ttl)
      ∷ in_query_of (codes "disposable") (codes "int")
          (codes "After number of this getting of this key, key will be removed") (codes "0")
      ∷ in_query_of (codes "len") (codes "int")
          (codes "Length of key to generate. max="
            ++ itoa cfg.max_key_length
            ++ codes ", unprivileged min="
            ++ itoa cfg.unprivileged_min_key_length
            ++ codes ", privilegen min="
            ++ itoa cfg.privileged_min_key_length)
          (itoa cfg.default_key_length)
      ∷ in_query_of (codes "url") (codes "bool")
          (codes "Is body url. If true after getting this key you will be redirected.")
          (codes "false")
      ∷ in_query_of (codes "key") (codes "string") (codes "You can request custom key") []
      ∷ in_query_of (codes "apikey") (codes "string") (codes "Apikey to use privileged features") []
      ∷ record {
        name = codes "body";
        type = codes "string";
        location = in_body;
        required = true;
        description = codes "Body to cache.";
        default = [];
      }
      ∷ []

  unfoldable pub build_main_section : Bytes → Section
  build_main_section base_url = record {
    name = codes "Main";
    description = codes "Main operations";
    endpoints =
        record {
          id = codes "create-record";
          method = method_post;
          path = codes "/";
          description = codes "Save body";
          parameters = get_create_record_parameters;
          request_example = [];
          response_example = base_url ++ codes "/eoVbybwLnlc49q/";
        }
        ∷ record {
          id = codes "get-record";
          method = method_get;
          path = codes "/{key}";
          description =
              codes
                "Get previously saved body with key. If key was saved as url - you will be redirected.";
          parameters = get_key_path_parameter;
          request_example = [];
          response_example = codes "body";
        }
        ∷ record {
          id = codes "get-record-clicks";
          method = method_get;
          path = codes "/{key}/clicks";
          description = codes "Get clicks count for key.";
          parameters = get_key_path_parameter;
          request_example = [];
          response_example = codes "1";
        }
        ∷ [];
  }

  unfoldable pub build_sections : Bytes → Bool → Bytes → List Section
  unfolding build_main_section
  build_sections base_url healthcheck_enabled version =
      (build_main_section base_url ∷ [])
      ++ (if healthcheck_enabled then build_healthcheck_section version ∷ [] else [])

  unfoldable pub build_api_doc : {W : Type 0} → Request W → Bytes → Bool → ApiDoc
  unfolding build_sections detect_proto
  build_api_doc r version healthcheck_enabled =
      let base_url = detect_proto r ++ codes "://" ++ r.host in
      record {
        title = codes "Paste.thek4n.ru API";
        description = codes "This API provides access to all the awesome features of our service.";
        base_url = base_url;
        version = version;
        sections = build_sections base_url healthcheck_enabled version;
      }

  -- `DocsHandler`: `execute` writes the template of a document, `tpl.Execute`.
  unfoldable pub docs_handler :
      {W : Type 0}
      → (ApiDoc → Exec W (Unit {0}))
      → ResponseWriter W
      → Bytes
      → Bool
      → Request W
      → W
      → W
  unfolding build_api_doc
  docs_handler execute response version healthcheck_enabled r w =
      outcome (execute (build_api_doc r version healthcheck_enabled) w) (λ done w'. w')
        (λ e w'. response.write_header 500 w')
