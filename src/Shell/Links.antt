-- ===== src/Shell/Links.antt =====
-- Where the links of the frame lead (web/src/components/header.tsx, sidebar.tsx and web/src/App.tsx).
use karadul.Base.{
  ℕ, ◌≡◌, refl, ◌≢◌, inl, inr, Bool, true, false, ◌&&◌, List, [], ◌∷◌, map, arith, leb,
  if◌then◌else◌, Bool-cases, all, count, Text, codes, text_eq, eq_of_text_eq,
}
use karadul.Pages.View.{OfferedIn, OfferedIn-append}
use karadul.Shell.{
  Page, dashboard, topology, nodes, peers, settings, not_found, page_of, NavItem, sidebar_items,
  header_items, ShellState, ShellEvent, shell_update, sidebar, mobile_menu, header, layout,
}

abbrev is_letter : ℕ → Bool
is_letter c = leb b'a' c && leb c b'z'

-- React Router's rule for paths of one segment of small letters: such a path fits the location that it
-- spells, and no other such location.
pub record IsRouter (match : Text → Text → Bool) : Type 0 where
  pub static :
      (s t : Text)
      → all is_letter s ≡ true
      → all is_letter t ≡ true
      → match (b'/' ∷ s) (b'/' ∷ t) ≡ text_eq s t

-- The page of the link behind each entry.
abbrev pub nav_pages : (Text → Text → Bool) → List NavItem → List Page
nav_pages match items = map (λ (item : NavItem). page_of match item.href) items

-- On such locations the router decides as the spelling does.
page_of-static :
    (match : Text → Text → Bool) (t : Text)
    → IsRouter match
    → all is_letter t ≡ true
    → page_of match (b'/' ∷ t) ≡ page_of text_eq (b'/' ∷ t)
unfolding page_of
page_of-static match t router letters =
    rw
      (
        router.static [] t refl letters,
        router.static (codes "topology") t refl letters,
        router.static (codes "nodes") t refl letters,
        router.static (codes "peers") t refl letters,
        router.static (codes "settings") t refl letters,
      )
      refl

module _ (match : Text → Text → Bool) (router : IsRouter match) where
  page-dashboard : page_of match (codes "/") ≡ dashboard
  unfolding page_of
  page-dashboard = page_of-static match [] router refl

  page-topology : page_of match (codes "/topology") ≡ topology
  unfolding page_of
  page-topology = page_of-static match (codes "topology") router refl

  page-nodes : page_of match (codes "/nodes") ≡ nodes
  unfolding page_of
  page-nodes = page_of-static match (codes "nodes") router refl

  page-peers : page_of match (codes "/peers") ≡ peers
  unfolding page_of
  page-peers = page_of-static match (codes "peers") router refl

  page-settings : page_of match (codes "/settings") ≡ settings
  unfolding page_of
  page-settings = page_of-static match (codes "settings") router refl

abbrev pub is_found : Page → Bool
is_found dashboard = true
is_found topology = true
is_found nodes = true
is_found peers = true
is_found settings = true
is_found not_found = false

-- How many entries of a list are highlighted at a location.
abbrev pub highlighted : Text → List NavItem → ℕ
highlighted pathname items = count (λ (item : NavItem). text_eq pathname item.href) items

text_eq_comm : (s t : Text) → text_eq s t ≡ text_eq t s
text_eq_comm [] [] = refl
text_eq_comm [] (y ∷ t) = refl
text_eq_comm (x ∷ s) [] = refl
text_eq_comm (x ∷ s) (y ∷ t) = ground (arith, text_eq_comm s t)

highlighted-text_eq :
    (pathname : Text)
    → highlighted pathname sidebar_items ≡ (if is_found (page_of text_eq pathname) then 1 else 0)
unfolding page_of
highlighted-text_eq pathname = elim (Bool-cases (text_eq (codes "/") pathname)) [
  | inl e ↦ rw (← eq_of_text_eq (codes "/") pathname e) refl
  | inr n0 ↦ elim (Bool-cases (text_eq (codes "/topology") pathname)) [
    | inl e ↦ rw (← eq_of_text_eq (codes "/topology") pathname e) refl
    | inr n1 ↦ elim (Bool-cases (text_eq (codes "/nodes") pathname)) [
      | inl e ↦ rw (← eq_of_text_eq (codes "/nodes") pathname e) refl
      | inr n2 ↦ elim (Bool-cases (text_eq (codes "/peers") pathname)) [
        | inl e ↦ rw (← eq_of_text_eq (codes "/peers") pathname e) refl
        | inr n3 ↦ elim (Bool-cases (text_eq (codes "/settings") pathname)) [
          | inl e ↦ rw (← eq_of_text_eq (codes "/settings") pathname e) refl
          | inr n4 ↦
              rw
                (
                  text_eq_comm pathname (codes "/"),
                  n0,
                  text_eq_comm pathname (codes "/topology"),
                  n1,
                  text_eq_comm pathname (codes "/nodes"),
                  n2,
                  text_eq_comm pathname (codes "/peers"),
                  n3,
                  text_eq_comm pathname (codes "/settings"),
                  n4,
                )
                refl
        ]
      ]
    ]
  ]
]

-- Under the router's rule for paths of one segment, the sidebar and the header's menu have the same
-- five links, which lead to the five pages in turn; and at a location of one segment of small
-- letters one of them is highlighted if a page is there, and none where the page is not found.
pub nav_lem :
    (match : Text → Text → Bool) (t : Text)
    → IsRouter match
    → all is_letter t ≡ true
    → (nav_pages match sidebar_items ≡ dashboard ∷ topology ∷ nodes ∷ peers ∷ settings ∷ [])
      × (header_items ≡ sidebar_items)
      × (highlighted (b'/' ∷ t) sidebar_items
          ≡ (if is_found (page_of match (b'/' ∷ t)) then 1 else 0))
nav_lem match t router letters = (
  rw
      (
        page-dashboard match router,
        page-topology match router,
        page-nodes match router,
        page-peers match router,
        page-settings match router,
      )
      refl,
  refl,
  rw (page_of-static match t router letters) (highlighted-text_eq (b'/' ∷ t)),
)

module _ (match : Text → Text → Bool) (router : IsRouter match) (s : ShellState) (back : Text)
    (event : ShellEvent) where
  sidebar-found :
      page_of match s.pathname ≢ not_found
      → OfferedIn (sidebar s.pathname) event
      → page_of match (shell_update back event s).pathname ≢ not_found
  unfolding sidebar shell_update
  sidebar-found found h = ground (
    arith,
    found,
    page-dashboard match router,
    page-topology match router,
    page-nodes match router,
    page-peers match router,
    page-settings match router,
  )

  menu-found :
      (open_ : Bool)
      → page_of match s.pathname ≢ not_found
      → OfferedIn (mobile_menu open_ s.pathname) event
      → page_of match (shell_update back event s).pathname ≢ not_found
  unfolding shell_update
  menu-found false found h = elim h [ ]
  menu-found true found h = ground (
    arith,
    found,
    page-dashboard match router,
    page-topology match router,
    page-nodes match router,
    page-peers match router,
    page-settings match router,
  )

  -- Under the router's rule for paths of one segment, no event that the frame offers leads from a
  -- page that is there to one that is not.
  pub layout-found :
      (connected : Bool)
      → page_of match s.pathname ≢ not_found
      → OfferedIn (layout connected s) event
      → page_of match (shell_update back event s).pathname ≢ not_found
  unfolding layout header shell_update
  layout-found connected found h =
      elim (OfferedIn-append (sidebar s.pathname) (header connected s) event h) [
        | inl h ↦ sidebar-found found h
        | inr (inl h) ↦ ground (arith, found)
        | inr (inr h) ↦
            elim (OfferedIn-append (mobile_menu s.mobile_menu_open s.pathname) _ event h) [
              | inl h ↦ menu-found s.mobile_menu_open found h
              | inr h ↦ ground (arith, found)
            ]
      ]
