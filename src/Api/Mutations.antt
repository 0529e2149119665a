-- ===== src/Api/Mutations.antt =====
-- The mutations of web/src/lib/api.ts: what each hook gives to `useMutation`, and what becomes of
-- them under React Query's contract.
pub mod Announce
pub mod Empty
pub mod Bodies
pub mod Runner
use karadul.Base.{ℤ, Bool, not, Option, none, some, List, [], ◌∷◌, ◌++◌, map, Text, codes}
use karadul.Json.{
  JsonValue, string, number, boolean, array, object, empty_object, field, items_of, fields_of,
  stringify,
}
use karadul.Json.Fields.{texts_json, optional}
use karadul.Api.{Request, Reply, Outcome, ok, err, Options, App, Toast, success, error, fetch_api}
use karadul.Api.Duration.{to_go_duration}

pub record AuthKey : Type 0 where
  pub id : Text
  pub key : Text
  pub ephemeral : Bool
  pub expires_at : Option Text
  pub created_at : Text
  pub used_at : Option Text
  pub used : Bool

pub data RuleAction : Type 0 where
  allow deny : RuleAction

pub record AclRule : Type 0 where
  pub action : RuleAction
  pub src : List Text
  pub dst : List Text
  pub ports : Option (List Text)

pub record TlsConfig : Type 0 where
  pub enabled : Option Bool
  pub cert_file : Option Text
  pub key_file : Option Text
  pub self_signed : Option Bool

pub record ServerConfig : Type 0 where
  pub addr : Option Text
  pub tls : Option TlsConfig
  pub approval_mode : Option Text
  pub subnet : Option Text
  pub data_dir : Option Text
  pub log_level : Option Text
  pub log_format : Option Text
  pub rate_limit : Option ℤ

-- Their JSON texts, with the fields in the order of the interfaces.
abbrev pub action_text : RuleAction → Text
action_text allow = codes "allow"
action_text deny = codes "deny"

abbrev pub rule_fields : AclRule → List (Text × Option JsonValue)
rule_fields rule =
    (codes "action", some (string (action_text rule.action)))
    ∷ (codes "src", some (texts_json rule.src))
    ∷ (codes "dst", some (texts_json rule.dst))
    ∷ (codes "ports", optional texts_json rule.ports)
    ∷ []

abbrev pub rule_json : AclRule → JsonValue
rule_json rule = object (fields_of (rule_fields rule))

abbrev pub rules_json : List AclRule → JsonValue
rules_json rules =
    object (field (codes "rules") (array (items_of (map rule_json rules))) empty_object)

abbrev pub tls_fields : TlsConfig → List (Text × Option JsonValue)
tls_fields tls =
    (codes "enabled", optional boolean tls.enabled)
    ∷ (codes "cert_file", optional string tls.cert_file)
    ∷ (codes "key_file", optional string tls.key_file)
    ∷ (codes "self_signed", optional boolean tls.self_signed)
    ∷ []

abbrev pub tls_json : TlsConfig → JsonValue
tls_json tls = object (fields_of (tls_fields tls))

abbrev pub config_fields : ServerConfig → List (Text × Option JsonValue)
config_fields config =
    (codes "addr", optional string config.addr)
    ∷ (codes "tls", optional tls_json config.tls)
    ∷ (codes "approval_mode", optional string config.approval_mode)
    ∷ (codes "subnet", optional string config.subnet)
    ∷ (codes "data_dir", optional string config.data_dir)
    ∷ (codes "log_level", optional string config.log_level)
    ∷ (codes "log_format", optional string config.log_format)
    ∷ (codes "rate_limit", optional number config.rate_limit)
    ∷ []

abbrev pub config_json : ServerConfig → JsonValue
config_json config = object (fields_of (config_fields config))

abbrev pub key_json : Text → JsonValue
key_json expiry = object (field (codes "expiry") (string expiry) empty_object)

-- The object given to `useMutation`, over what its functions do to the state.
pub record Mutation (V T : Type 0) : Type 0 where
  pub mutation_fn : V → App → Outcome T × App
  pub on_success : App → App
  pub on_error : Text → App → App

abbrev pub show_toast : Toast → App → App
show_toast toast app = record app { toasts = app.toasts ++ toast ∷ [] }

-- `queryClient.invalidateQueries({ queryKey: key })`
abbrev pub invalidate : List Text → App → App
invalidate key app = record app { invalidated = app.invalidated ++ key ∷ [] }

abbrev pub nodes_key : List Text
nodes_key = codes "nodes" ∷ []

abbrev pub auth_keys_key : List Text
auth_keys_key = codes "auth-keys" ∷ []

abbrev pub acl_key : List Text
acl_key = codes "acl" ∷ []

abbrev pub config_key : List Text
config_key = codes "config" ∷ []

abbrev pub with_method : Text → Option Text → Options
with_method method body = record { method = some method; body = body }

-- The options of the requests.
abbrev pub delete_options : Options
delete_options = with_method (codes "DELETE") none

abbrev pub rules_options : List AclRule → Options
rules_options rules = with_method (codes "PUT") (some (stringify 0 (rules_json rules)))

abbrev pub config_options : ServerConfig → Options
config_options config = with_method (codes "PUT") (some (stringify 0 (config_json config)))

-- `expiresIn ? toGoDuration(expiresIn) : ""`
abbrev pub expiry : Option Text → Text
expiry none = []
expiry (some []) = []
expiry (some (c ∷ value)) = to_go_duration (c ∷ value)

abbrev pub key_options : Option Text → Options
key_options expires_in =
    with_method (codes "POST") (some (stringify 0 (key_json (expiry expires_in))))

-- `parse` is `response.json()`: for a result that the caller does not read it gives no value.
module _ (serve : Request → Reply) (parse : Text → Outcome (Unit {0})) where
  -- `useDeleteNode`
  unfoldable pub delete_node : Mutation Text (Unit {0})
  unfolding fetch_api
  delete_node = record {
    mutation_fn =
        λ id app. fetch_api serve parse (codes "/v1/admin/nodes/" ++ id) delete_options app;
    on_success =
        λ app. show_toast (success (codes "Node deleted successfully")) (invalidate nodes_key app);
    on_error = λ message app. show_toast (error (codes "Failed to delete node: " ++ message)) app;
  }

  -- `useDeleteAuthKey`
  unfoldable pub delete_auth_key : Mutation Text (Unit {0})
  unfolding fetch_api
  delete_auth_key = record {
    mutation_fn =
        λ id app. fetch_api serve parse (codes "/v1/admin/auth-keys/" ++ id) delete_options app;
    on_success = λ app.
        show_toast (success (codes "Auth key deleted successfully")) (invalidate auth_keys_key app);
    on_error =
        λ message app. show_toast (error (codes "Failed to delete auth key: " ++ message)) app;
  }

  -- `useUpdateACL`
  unfoldable pub update_acl : Mutation (List AclRule) (Unit {0})
  unfolding fetch_api
  update_acl = record {
    mutation_fn =
        λ rules app. fetch_api serve parse (codes "/v1/admin/acl") (rules_options rules) app;
    on_success = λ app.
        show_toast (success (codes "ACL rules updated successfully")) (invalidate acl_key app);
    on_error = λ message app. show_toast (error (codes "Failed to update ACL: " ++ message)) app;
  }

  -- `useUpdateConfig`
  unfoldable pub update_config : Mutation ServerConfig (Unit {0})
  unfolding fetch_api
  update_config = record {
    mutation_fn =
        λ config app. fetch_api serve parse (codes "/v1/admin/config") (config_options config) app;
    on_success = λ app.
        show_toast (success (codes "Configuration saved successfully")) (invalidate config_key app);
    on_error = λ message app. show_toast (error (codes "Failed to save config: " ++ message)) app;
  }

-- `useCreateAuthKey`
unfoldable pub create_auth_key :
    (Request → Reply) → (Text → Outcome AuthKey) → Mutation (Option Text) AuthKey
unfolding fetch_api to_go_duration
create_auth_key serve parse = record {
  mutation_fn = λ expires_in app.
      fetch_api serve parse (codes "/v1/admin/auth-keys") (key_options expires_in) app;
  on_success = λ app.
      show_toast (success (codes "Auth key created successfully")) (invalidate auth_keys_key app);
  on_error = λ message app. show_toast (error (codes "Failed to create auth key: " ++ message)) app;
}
