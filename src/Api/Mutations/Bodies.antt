-- ===== src/Api/Mutations/Bodies.antt =====
-- What the coordinator finds in the bodies of the requests of web/src/lib/api.ts.
use karadul.Base.{
  ◌≡◌, refl, Bool, Option, none, some, List, map, if◌then◌else◌, Text, codes, text_eq, ℤ,
}
use karadul.Json.{JsonValue, string, number, boolean, array, items_of, JsonFields, stringify}
use karadul.Json.Reader.{read_json}
use karadul.Json.RoundTrip.{read_json-stringify}
use karadul.Json.Fields.{
  ◌<*>◌, ◌<&>◌, texts_json, as_list-texts_json, field_of, as_text, as_boolean, as_list, as_object,
  required, if_present, required-given, if_present-given, as_list-array,
}
use karadul.Api.{make_request}
use karadul.Storage.{Storage}
use karadul.Api.Mutations.{
  RuleAction, allow, deny, AclRule, TlsConfig, ServerConfig, action_text, rule_fields, rule_json,
  rules_json, tls_fields, tls_json, config_fields, config_json, key_json, expiry, rules_options,
  config_options, key_options,
}

abbrev as_action : JsonValue → Option RuleAction
as_action (string s) =
    if text_eq s (codes "allow")
    then some allow
    else if text_eq s (codes "deny")
    then some deny
    else none
as_action _ = none

as_action-action_text :
    (action : RuleAction) → as_action (string (action_text action)) ≡ some action
as_action-action_text allow = refl
as_action-action_text deny = refl

abbrev as_integer : JsonValue → Option ℤ
as_integer (number n) = some n
as_integer _ = none

abbrev make_rule : RuleAction → List Text → List Text → Option (List Text) → AclRule
make_rule action src dst ports = record { action = action; src = src; dst = dst; ports = ports }

abbrev rule_of : JsonFields → Option AclRule
rule_of fields =
    some make_rule
    <*> required as_action (field_of (codes "action") fields)
    <*> required (as_list as_text) (field_of (codes "src") fields)
    <*> required (as_list as_text) (field_of (codes "dst") fields)
    <*> if_present (as_list as_text) (field_of (codes "ports") fields)

rule_of-rule_json : (rule : AclRule) → as_object rule_of (rule_json rule) ≡ some rule
rule_of-rule_json rule =
    let fields = rule_fields rule in
    refl {a = some make_rule}
    <&> required-given as_action (codes "action") fields refl (as_action-action_text rule.action)
    <&> required-given (as_list as_text) (codes "src") fields refl (as_list-texts_json rule.src)
    <&> required-given (as_list as_text) (codes "dst") fields refl (as_list-texts_json rule.dst)
    <&> if_present-given (as_list as_text) (codes "ports") fields texts_json rule.ports refl
        as_list-texts_json

abbrev rules_of : JsonFields → Option (List AclRule)
rules_of fields = required (as_list (as_object rule_of)) (field_of (codes "rules") fields)

abbrev make_tls : Option Bool → Option Text → Option Text → Option Bool → TlsConfig
make_tls enabled cert_file key_file self_signed = record {
  enabled = enabled;
  cert_file = cert_file;
  key_file = key_file;
  self_signed = self_signed;
}

abbrev tls_of : JsonFields → Option TlsConfig
tls_of fields =
    some make_tls
    <*> if_present as_boolean (field_of (codes "enabled") fields)
    <*> if_present as_text (field_of (codes "cert_file") fields)
    <*> if_present as_text (field_of (codes "key_file") fields)
    <*> if_present as_boolean (field_of (codes "self_signed") fields)

tls_of-tls_json : (tls : TlsConfig) → as_object tls_of (tls_json tls) ≡ some tls
tls_of-tls_json tls =
    let fields = tls_fields tls in
    refl {a = some make_tls}
    <&> if_present-given as_boolean (codes "enabled") fields boolean tls.enabled refl (λ b. refl)
    <&> if_present-given as_text (codes "cert_file") fields string tls.cert_file refl (λ s. refl)
    <&> if_present-given as_text (codes "key_file") fields string tls.key_file refl (λ s. refl)
    <&> if_present-given as_boolean (codes "self_signed") fields boolean tls.self_signed refl
        (λ b. refl)

abbrev make_config :
    Option Text
    → Option TlsConfig
    → Option Text
    → Option Text
    → Option Text
    → Option Text
    → Option Text
    → Option ℤ
    → ServerConfig
make_config addr tls approval_mode subnet data_dir log_level log_format rate_limit = record {
  addr = addr;
  tls = tls;
  approval_mode = approval_mode;
  subnet = subnet;
  data_dir = data_dir;
  log_level = log_level;
  log_format = log_format;
  rate_limit = rate_limit;
}

abbrev config_of : JsonFields → Option ServerConfig
config_of fields =
    some make_config
    <*> if_present as_text (field_of (codes "addr") fields)
    <*> if_present (as_object tls_of) (field_of (codes "tls") fields)
    <*> if_present as_text (field_of (codes "approval_mode") fields)
    <*> if_present as_text (field_of (codes "subnet") fields)
    <*> if_present as_text (field_of (codes "data_dir") fields)
    <*> if_present as_text (field_of (codes "log_level") fields)
    <*> if_present as_text (field_of (codes "log_format") fields)
    <*> if_present as_integer (field_of (codes "rate_limit") fields)

config_of-config_json :
    (config : ServerConfig) → as_object config_of (config_json config) ≡ some config
config_of-config_json config =
    let fields = config_fields config in
    refl {a = some make_config}
    <&> if_present-given as_text (codes "addr") fields string config.addr refl (λ s. refl)
    <&> if_present-given (as_object tls_of) (codes "tls") fields tls_json config.tls refl
        tls_of-tls_json
    <&> if_present-given as_text (codes "approval_mode") fields string config.approval_mode refl
        (λ s. refl)
    <&> if_present-given as_text (codes "subnet") fields string config.subnet refl (λ s. refl)
    <&> if_present-given as_text (codes "data_dir") fields string config.data_dir refl (λ s. refl)
    <&> if_present-given as_text (codes "log_level") fields string config.log_level refl (λ s. refl)
    <&> if_present-given as_text (codes "log_format") fields string config.log_format refl
        (λ s. refl)
    <&> if_present-given as_integer (codes "rate_limit") fields number config.rate_limit refl
        (λ n. refl)

abbrev key_of : JsonFields → Option Text
key_of fields = required as_text (field_of (codes "expiry") fields)

abbrev read_value_of : {A : Type 0} → (JsonFields → Option A) → Option JsonValue → Option A
read_value_of read none = none
read_value_of read (some v) = as_object read v

-- The body of a request, read as JSON.
abbrev body_of : {A : Type 0} → (JsonFields → Option A) → Option Text → Option A
body_of read none = none
body_of read (some body) = read_value_of read (read_json body)

abbrev pub sent_rules : Option Text → Option (List AclRule)
sent_rules = body_of rules_of

abbrev pub sent_config : Option Text → Option ServerConfig
sent_config = body_of config_of

abbrev pub sent_expiry : Option Text → Option Text
sent_expiry = body_of key_of

-- The texts of two configurations, or of two lists of rules, are the same only if they are.
pub config_json_injective :
    (a b : ServerConfig) → stringify 0 (config_json a) ≡ stringify 0 (config_json b) → a ≡ b
config_json_injective a b e =
    let first : sent_config (some (stringify 0 (config_json a))) ≡ some a =
      rw (read_json-stringify 0 (config_json a)) (config_of-config_json a) in
    let second : sent_config (some (stringify 0 (config_json b))) ≡ some b =
      rw (read_json-stringify 0 (config_json b)) (config_of-config_json b) in
    cc

pub rule_items_injective :
    (a b : List AclRule)
    → stringify 0 (array (items_of (map rule_json a)))
      ≡ stringify 0 (array (items_of (map rule_json b)))
    → a ≡ b
rule_items_injective a b e =
    let read : Option Text → Option (List AclRule) = λ text. elim text [
      | none ↦ none
      | some t ↦ elim (read_json t) [ none ↦ none | some v ↦ as_list (as_object rule_of) v ]
    ] in
    let first : read (some (stringify 0 (array (items_of (map rule_json a))))) ≡ some a =
      rw (read_json-stringify 0 (array (items_of (map rule_json a))))
        (as_list-array (as_object rule_of) rule_json a rule_of-rule_json) in
    let second : read (some (stringify 0 (array (items_of (map rule_json b))))) ≡ some b =
      rw (read_json-stringify 0 (array (items_of (map rule_json b))))
        (as_list-array (as_object rule_of) rule_json b rule_of-rule_json) in
    cc

-- A reader of JSON gets out of the bodies of the requests what was to be sent: the rules in their
-- order, the configuration with the fields that are set and no other, and the expiry of a new key.
pub bodies_lem :
    (storage : Storage) (rules : List AclRule) (config : ServerConfig) (expires_in : Option Text)
    → (sent_rules (make_request (codes "/v1/admin/acl") (rules_options rules) storage).body
        ≡ some rules)
      × (sent_config (make_request (codes "/v1/admin/config") (config_options config) storage).body
          ≡ some config)
      × (sent_expiry
            (make_request (codes "/v1/admin/auth-keys") (key_options expires_in) storage).body
          ≡ some (expiry expires_in))
unfolding make_request
bodies_lem storage rules config expires_in = (
  rw (read_json-stringify 0 (rules_json rules))
      (as_list-array (as_object rule_of) rule_json rules rule_of-rule_json),
  rw (read_json-stringify 0 (config_json config)) (config_of-config_json config),
  rw (read_json-stringify 0 (key_json (expiry expires_in))) refl,
)
