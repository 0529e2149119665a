-- ===== src/Api/Mutations/Announce.antt =====
-- What the mutations of web/src/lib/api.ts tell the user and the query cache.
use karadul.Base.{◌≡◌, refl, ◌⊎◌, inl, inr, List, [], ◌∷◌, ◌++◌, Text, codes}
use karadul.Api.{
  Request, Reply, Outcome, ok, err, Options, App, success, error, make_request, read_reply,
  fetch_api,
}
use karadul.Api.Mutations.{
  delete_options, rules_options, key_options, config_options, AuthKey, Mutation, show_toast,
  invalidate, nodes_key, auth_keys_key, acl_key, config_key, delete_node, delete_auth_key,
  update_acl, update_config, create_auth_key,
}
use karadul.Api.Mutations.Runner.{Runner}

-- A call of the mutation sends one request, with the token of the storage, shows one toast and changes neither the store nor the
-- storage. The toast is a success, and the key is invalidated, exactly if the call returns a value.
abbrev pub Announces : {V T : Type 0} → Runner → Mutation V T → List Text → Type 0
Announces {V} {T} r m key =
    (v : V) (app : App)
    → let (outcome, after) = r.mutate_async V T m v app in
      (after.store ≡ app.store)
      × (after.storage ≡ app.storage)
      × ((path : Text) × ((options : Options) × (after.requests
              ≡ app.requests ++ make_request path options app.storage ∷ [])))
      × (((value : T) × (outcome ≡ ok value)
            × (after.invalidated ≡ app.invalidated ++ key ∷ [])
            × ((s : Text) × (after.toasts ≡ app.toasts ++ success s ∷ [])))
          ⊎ ((message : Text) × (outcome ≡ err message)
              × (after.invalidated ≡ app.invalidated)
              × ((s : Text) × (after.toasts ≡ app.toasts ++ error s ∷ []))))

-- The shape that the five mutations share.
abbrev fetching :
    {V T : Type 0}
    → (Request → Reply)
    → (Text → Outcome T)
    → (V → Text)
    → (V → Options)
    → List Text
    → Text
    → Text
    → Mutation V T
fetching serve parse path options key done failure = record {
  mutation_fn = λ v app. fetch_api serve parse (path v) (options v) app;
  on_success = λ app. show_toast (success done) (invalidate key app);
  on_error = λ message app. show_toast (error (failure ++ message)) app;
}

fetching-Announces :
    {V T : Type 0} (r : Runner) (serve : Request → Reply) (parse : Text → Outcome T)
    (path : V → Text) (options : V → Options) (key : List Text) (done failure : Text)
    → Announces r (fetching serve parse path options key done failure) key
unfolding fetch_api
fetching-Announces {V} {T} r serve parse path options key done failure v app =
    settled (read_reply parse (serve request)) refl
  where
    request : Request
    request = make_request (path v) (options v) app.storage

    m : Mutation V T
    m = fetching serve parse path options key done failure

    sent : App
    sent = record app { requests = app.requests ++ request ∷ [] }

    settled :
        (outcome : Outcome T)
        → read_reply parse (serve request) ≡ outcome
        → let (result, after) = r.mutate_async V T m v app in
          (after.store ≡ app.store)
          × (after.storage ≡ app.storage)
          × ((p : Text) × ((o : Options) × (after.requests
                  ≡ app.requests ++ make_request p o app.storage ∷ [])))
          × (((value : T) × (result ≡ ok value)
                × (after.invalidated ≡ app.invalidated ++ key ∷ [])
                × ((s : Text) × (after.toasts ≡ app.toasts ++ success s ∷ [])))
              ⊎ ((message : Text) × (result ≡ err message)
                  × (after.invalidated ≡ app.invalidated)
                  × ((s : Text) × (after.toasts ≡ app.toasts ++ error s ∷ []))))
    settled (ok value) e =
        rw (r.succeeds V T m v app {value = value} {after = sent} (rw e))
          (refl, refl, (path v, (options v, refl)), inl (value, refl, refl, (done, refl)))
    settled (err message) e = rw (r.fails V T m v app {message = message} {after = sent} (rw e)) (
      refl,
      refl,
      (path v, (options v, refl)),
      inr (message, refl, refl, (failure ++ message, refl)),
    )

pub create_auth_key-Announces :
    (r : Runner) (serve : Request → Reply) (parse : Text → Outcome AuthKey)
    → Announces r (create_auth_key serve parse) auth_keys_key
unfolding create_auth_key
create_auth_key-Announces r serve parse =
    fetching-Announces r serve parse _ key_options _ _ (codes "Failed to create auth key: ")

pub delete_node-Announces :
    (r : Runner) (serve : Request → Reply) (parse : Text → Outcome (Unit {0}))
    → Announces r (delete_node serve parse) nodes_key
unfolding delete_node
delete_node-Announces r serve parse =
    fetching-Announces r serve parse _ (λ id. delete_options) _ _ (codes "Failed to delete node: ")

-- The request of a mutation is the one that its path and options make, however it ends.
fetching-requests :
    {V T : Type 0} (r : Runner) (serve : Request → Reply) (parse : Text → Outcome T)
    (path : V → Text) (options : V → Options) (key : List Text) (done failure : Text) (v : V)
    (app : App)
    → (r.mutate_async V T (fetching serve parse path options key done failure) v app).1.requests
      ≡ app.requests ++ make_request (path v) (options v) app.storage ∷ []
unfolding fetch_api
fetching-requests {V} {T} r serve parse path options key done failure v app =
    settled (read_reply parse (serve request)) refl
  where
    request : Request
    request = make_request (path v) (options v) app.storage

    m : Mutation V T
    m = fetching serve parse path options key done failure

    settled :
        (outcome : Outcome T)
        → read_reply parse (serve request) ≡ outcome
        → (r.mutate_async V T m v app).1.requests ≡ app.requests ++ request ∷ []
    settled (ok value) e =
        rw
          (r.succeeds V T m v app {value = value}
            {after = record app { requests = app.requests ++ request ∷ [] }} (rw e))
          refl
    settled (err message) e =
        rw
          (r.fails V T m v app {message = message}
            {after = record app { requests = app.requests ++ request ∷ [] }} (rw e))
          refl

pub delete_node-requests :
    (r : Runner) (serve : Request → Reply) (parse : Text → Outcome (Unit {0})) (id : Text)
    (app : App)
    → (r.mutate_async Text (Unit {0}) (delete_node serve parse) id app).1.requests
      ≡ app.requests
        ++ make_request (codes "/v1/admin/nodes/" ++ id) delete_options app.storage ∷ []
unfolding delete_node
delete_node-requests r serve parse id app =
    fetching-requests r serve parse (λ id. codes "/v1/admin/nodes/" ++ id) (λ id. delete_options) _
      _ (codes "Failed to delete node: ") id app

-- The request of a mutation, with the path and the options that it has for the value.
abbrev pub Requests : {V T : Type 0} → Runner → Mutation V T → (V → Text) → (V → Options) → Type 0
Requests {V} {T} r m path options =
    (v : V) (app : App)
    → (r.mutate_async V T m v app).1.requests
      ≡ app.requests ++ make_request (path v) (options v) app.storage ∷ []

pub settings_mutations-Requests :
    (r : Runner) (serve : Request → Reply) (parse : Text → Outcome (Unit {0}))
    (parse_key : Text → Outcome AuthKey)
    → Requests r (create_auth_key serve parse_key) (λ v. codes "/v1/admin/auth-keys") key_options
      × Requests r
          (delete_auth_key serve parse)
          (λ id. codes "/v1/admin/auth-keys/" ++ id)
          (λ id. delete_options)
      × Requests r (update_acl serve parse) (λ rules. codes "/v1/admin/acl") rules_options
      × Requests r (update_config serve parse) (λ config. codes "/v1/admin/config") config_options
unfolding create_auth_key delete_auth_key update_acl update_config
settings_mutations-Requests r serve parse parse_key = (
  λ v app.
      fetching-requests r serve parse_key _ key_options _ _ (codes "Failed to create auth key: ") v
        app,
  λ id app.
      fetching-requests r serve parse (λ id. codes "/v1/admin/auth-keys/" ++ id)
        (λ id. delete_options) _ _ (codes "Failed to delete auth key: ") id app,
  λ rules app.
      fetching-requests r serve parse _ rules_options _ _ (codes "Failed to update ACL: ") rules
        app,
  λ config app.
      fetching-requests r serve parse _ config_options _ _ (codes "Failed to save config: ") config
        app,
)

-- Under React Query's contract each of the five mutations sends one request, shows one toast and
-- changes neither the store nor the storage; the toast is a success, and the mutation's query is
-- invalidated, exactly if the call returns a value.
pub mutations-Announces :
    (r : Runner) (serve : Request → Reply) (parse : Text → Outcome (Unit {0}))
    (parse_key : Text → Outcome AuthKey)
    → Announces r (delete_node serve parse) nodes_key
      × Announces r (create_auth_key serve parse_key) auth_keys_key
      × Announces r (delete_auth_key serve parse) auth_keys_key
      × Announces r (update_acl serve parse) acl_key
      × Announces r (update_config serve parse) config_key
unfolding delete_node create_auth_key delete_auth_key update_acl update_config
mutations-Announces r serve parse parse_key = (
  delete_node-Announces r serve parse,
  create_auth_key-Announces r serve parse_key,
  fetching-Announces r serve parse _ (λ id. delete_options) _ _
      (codes "Failed to delete auth key: "),
  fetching-Announces r serve parse _ rules_options _ _ (codes "Failed to update ACL: "),
  fetching-Announces r serve parse _ config_options _ _ (codes "Failed to save config: "),
)
