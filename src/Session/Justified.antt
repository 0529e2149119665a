-- ===== src/Session/Justified.antt =====
-- Which requests delete something that the user has asked to delete.
use mathlib.Core.List.{append-nil, append_assoc}
use karadul.Base.{
  ◌≡◌, refl, sym, ap, ◌∙◌, ◌≢◌, ◌⊎◌, Bool, true, none, some, List, [], ◌∷◌, ◌++◌, arith, any, Text,
  codes, text_eq, All, All-append,
}
use karadul.Store.{Node}
use karadul.Api.{Request, App, Options, make_request}
use karadul.Pages.Nodes.Rendering.{ask_delete}
use karadul.Pages.Settings.Events.{delete_key}
use karadul.Session.{Move, at_nodes, at_settings, World}

-- The identifiers of the nodes that the user has asked to delete, and of the keys.
abbrev pub asked_by : Move → List Text
asked_by (at_nodes c (ask_delete node)) = node.id ∷ []
asked_by _ = []

abbrev pub clicked_by : Move → List Text
clicked_by (at_settings c (delete_key id)) = id ∷ []
clicked_by _ = []

abbrev pub asked_nodes : List Move → List Text
asked_nodes [] = []
asked_nodes (m ∷ moves) = asked_by m ++ asked_nodes moves

abbrev pub clicked_keys : List Move → List Text
clicked_keys [] = []
clicked_keys (m ∷ moves) = clicked_by m ++ clicked_keys moves

abbrev pub member : Text → List Text → Bool
member id = any (text_eq id)

pub member-left :
    (id : Text) (xs ys : List Text) → member id xs ≡ true → member id (xs ++ ys) ≡ true
member-left id [] ys h = absurd (cc)
member-left id (x ∷ xs) ys h = ground (arith, member-left id xs ys)

pub member-right :
    (id : Text) (xs ys : List Text) → member id ys ≡ true → member id (xs ++ ys) ≡ true
member-right id [] ys h = h
member-right id (x ∷ xs) ys h = ground (arith, member-right id xs ys)

-- A request deletes nothing, or one of these nodes or keys.
abbrev pub IsJustified : List Text → List Text → Request → Type 0
IsJustified ids keys request =
    (request.method ≢ codes "DELETE")
    ⊎ ((id : Text) × (request.url ≡ codes "/api/v1/admin/nodes/" ++ id) × (member id ids ≡ true))
    ⊎ ((id : Text) × (request.url ≡ codes "/api/v1/admin/auth-keys/" ++ id)
        × (member id keys ≡ true))

-- The requests between two states are so.
abbrev pub Deletes : List Text → List Text → App → App → Type 0
Deletes ids keys app after =
    (sent : List Request) × (after.requests ≡ app.requests ++ sent)
    × All (IsJustified ids keys) sent

-- The dialog is closed, or asks about one of the nodes.
abbrev pub IsAsked : List Text → World → Type 0
IsAsked ids w =
    (w.nodes_page.node_to_delete ≡ none)
    ⊎ ((node : Node) × (w.nodes_page.node_to_delete ≡ some node) × (member node.id ids ≡ true))

pub nothing-Deletes :
    (ids keys : List Text) (app after : App)
    → after.requests ≡ app.requests
    → Deletes ids keys app after
nothing-Deletes ids keys app after e = ([], e ∙ sym (append-nil app.requests), tt)

pub Deletes-trans :
    (ids keys : List Text) (a b c : App)
    → Deletes ids keys a b
    → Deletes ids keys b c
    → Deletes ids keys a c
Deletes-trans ids keys a b c (xs, e, first) (ys, f, second) = (
  xs ++ ys,
  f ∙ ap (λ l. l ++ ys) e ∙ append_assoc a.requests xs ys,
  All-append (IsJustified ids keys) xs ys first second,
)

pub other_method :
    (path : Text) (options : Options) (app : App) (method : Text)
    → options.method ≡ some method
    → method ≢ codes "DELETE"
    → (make_request path options app.storage).method ≢ codes "DELETE"
unfolding make_request
other_method path options app method e ne h =
    let same : (make_request path options app.storage).method ≡ method = rw e refl in
    ne (sym same ∙ h)

pub post_differs : codes "POST" ≢ codes "DELETE"
post_differs h = absurd (cc)

pub put_differs : codes "PUT" ≢ codes "DELETE"
put_differs h = absurd (cc)
