-- ===== src/Api/Mutations/Empty.antt =====
-- Replies without a body, with which the coordinator answers a DELETE (204) and a PUT of the rules
-- (200), under the mutations of web/src/lib/api.ts.
use karadul.Base.{ℕ, ◌≡◌, true, List, [], ◌∷◌, ◌++◌, Text, codes}
use karadul.Api.{
  Request, Reply, response, Outcome, err, Options, App, error, make_request, read_reply, fetch_api,
}
use karadul.Api.Mutations.{
  delete_options, rules_options, AclRule, delete_node, delete_auth_key, update_acl,
}
use karadul.Api.Mutations.Runner.{Runner}

-- A reply with no body is an error to a caller of `fetchApi`, although its status is a success.
fetch_api-empty :
    {A : Type 0} (serve : Request → Reply) (parse : Text → Outcome A) (path : Text)
    (options : Options) (app : App) (status : ℕ) (message : Text)
    → serve (make_request path options app.storage) ≡ response true status []
    → parse [] ≡ err message
    → fetch_api serve parse path options app ≡ (
      err message,
      record app { requests = app.requests ++ make_request path options app.storage ∷ [] },
    )
unfolding fetch_api
fetch_api-empty serve parse path options app status message reply p = rw (reply, read_reply, p)

-- The state after a request that failed with `message`, and a toast that says so.
abbrev pub failed : Request → Text → App → App
failed request message app = record app {
  requests = app.requests ++ request ∷ [];
  toasts = app.toasts ++ error message ∷ [];
}

module _ (r : Runner) (serve : Request → Reply) (parse : Text → Outcome (Unit {0}))
    (message : Text) where
  open r use {mutate_async, fails}

  -- Where `response.json()` fails on an empty body, as it does: when the coordinator has deleted a
  -- node or a key and answers 204 without a body, or has stored the rules and answers 200 without a
  -- body, the mutation throws, the user is told that it failed, and no query is
  -- invalidated.
  pub empty_replies-fail :
      (id : Text) (rules : List AclRule) (app : App)
      → parse [] ≡ err message
      → serve (make_request (codes "/v1/admin/nodes/" ++ id) delete_options app.storage)
        ≡ response true 204 []
      → serve (make_request (codes "/v1/admin/auth-keys/" ++ id) delete_options app.storage)
        ≡ response true 204 []
      → serve (make_request (codes "/v1/admin/acl") (rules_options rules) app.storage)
        ≡ response true 200 []
      → let node_path = codes "/v1/admin/nodes/" ++ id in
        let key_path = codes "/v1/admin/auth-keys/" ++ id in
        let delete_node_request = make_request node_path delete_options app.storage in
        let delete_key_request = make_request key_path delete_options app.storage in
        let put_rules_request =
          make_request (codes "/v1/admin/acl") (rules_options rules) app.storage in
        (mutate_async Text (Unit {0}) (delete_node serve parse) id app ≡ (
          err message,
          failed delete_node_request (codes "Failed to delete node: " ++ message) app,
        ))
        × (mutate_async Text (Unit {0}) (delete_auth_key serve parse) id app ≡ (
          err message,
          failed delete_key_request (codes "Failed to delete auth key: " ++ message) app,
        ))
        × (mutate_async (List AclRule) (Unit {0}) (update_acl serve parse) rules app ≡ (
          err message,
          failed put_rules_request (codes "Failed to update ACL: " ++ message) app,
        ))
  unfolding delete_node delete_auth_key update_acl
  empty_replies-fail id rules app p node key put = (
    fails _ _ (delete_node serve parse) id app
        (fetch_api-empty serve parse _ delete_options app 204 message node p),
    fails _ _ (delete_auth_key serve parse) id app
        (fetch_api-empty serve parse _ delete_options app 204 message key p),
    fails _ _ (update_acl serve parse) rules app
        (fetch_api-empty serve parse _ (rules_options rules) app 200 message put p),
  )
