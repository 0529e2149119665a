-- ===== src/Shell.antt =====
-- The frame around the pages: web/src/App.tsx, web/src/components/layout.tsx, header.tsx and sidebar.tsx,
-- and web/src/pages/not-found.tsx.
pub mod Links
use karadul.Base.{Bool, true, false, not, List, [], ◌∷◌, ◌++◌, if◌then◌else◌, Text, codes, text_eq}
use karadul.Storage.{Storage}
use karadul.Theme.{light, dark, system, set_theme}
use karadul.Pages.View.{Item, caption, badge, button, menu, link, captions}

-- The pages of `App`'s routes.
pub data Page : Type 0 where
  dashboard topology nodes peers settings not_found : Page

pub record Route : Type 0 where
  pub path : Text
  pub page : Page

-- The routes, with their paths from the root.
abbrev pub routes : List Route
routes =
    record { path = codes "/"; page = dashboard }
    ∷ record { path = codes "/topology"; page = topology }
    ∷ record { path = codes "/nodes"; page = nodes }
    ∷ record { path = codes "/peers"; page = peers }
    ∷ record { path = codes "/settings"; page = settings }
    ∷ []

-- `Routes`, where `match` tells whether a path fits a location; the route `*` takes what is left.
abbrev pub page_from : (Text → Text → Bool) → List Route → Text → Page
page_from match [] pathname = not_found
page_from match (route ∷ rest) pathname =
    let others = page_from match rest pathname in
    if match route.path pathname then route.page else others

unfoldable pub page_of : (Text → Text → Bool) → Text → Page
page_of match pathname = page_from match routes pathname

pub record NavItem : Type 0 where
  pub title : Text
  pub href : Text

abbrev nav_item : Text → Text → NavItem
nav_item title href = record { title = title; href = href }

-- `navItems` of sidebar.tsx
abbrev pub sidebar_items : List NavItem
sidebar_items =
    nav_item (codes "Dashboard") (codes "/")
    ∷ nav_item (codes "Topology") (codes "/topology")
    ∷ nav_item (codes "Nodes") (codes "/nodes")
    ∷ nav_item (codes "Peers") (codes "/peers")
    ∷ nav_item (codes "Settings") (codes "/settings")
    ∷ []

-- `navItems` of header.tsx
abbrev pub header_items : List NavItem
header_items =
    nav_item (codes "Dashboard") (codes "/")
    ∷ nav_item (codes "Topology") (codes "/topology")
    ∷ nav_item (codes "Nodes") (codes "/nodes")
    ∷ nav_item (codes "Peers") (codes "/peers")
    ∷ nav_item (codes "Settings") (codes "/settings")
    ∷ []

-- What the frame keeps: the location, the header's menu, and the theme with its storage.
pub record ShellState : Type 0 where
  pub pathname : Text
  pub mobile_menu_open : Bool
  pub theme : Text
  pub storage : Storage

pub data ShellEvent : Type 0 where
  set_mobile_menu_open : Bool → ShellEvent
  -- a link of the sidebar, a link of the header's menu, and a link to another site
  follow follow_and_close leave : Text → ShellEvent
  choose_theme : Text → ShellEvent
  notifications go_back : ShellEvent

-- What an event does. `back` is the location that the browser's history goes back to.
unfoldable pub shell_update : Text → ShellEvent → ShellState → ShellState
unfolding set_theme
shell_update back (set_mobile_menu_open open_) s = record s { mobile_menu_open = open_ }
shell_update back (follow href) s = record s { pathname = href }
shell_update back (follow_and_close href) s = record s { pathname = href; mobile_menu_open = false }
shell_update back (leave url) s = s
shell_update back (choose_theme theme) s =
    let (storage, chosen) = set_theme (codes "karadul-theme") theme s.storage in
    record s { storage = storage; theme = chosen }
shell_update back notifications s = s
shell_update back go_back s = record s { pathname = back }

-- The links of a list, with the one of the location highlighted.
abbrev pub nav_links : (Text → ShellEvent) → Text → List NavItem → List (Item ShellEvent)
nav_links event pathname [] = []
nav_links event pathname (item ∷ items) =
    link item.title (text_eq pathname item.href) (event item.href) ∷ nav_links event pathname items

abbrev github_link : Item ShellEvent
github_link = link (codes "GitHub") false (leave (codes "https://github.com/karadul/karadul"))

-- `Sidebar`
unfoldable pub sidebar : Text → List (Item ShellEvent)
sidebar pathname =
    caption (codes "Karadul") ∷ nav_links follow pathname sidebar_items ++ github_link ∷ []

-- The sheet of the header's menu, which is there while it is open.
abbrev pub mobile_menu : Bool → Text → List (Item ShellEvent)
mobile_menu false pathname = []
mobile_menu true pathname =
    caption (codes "Karadul") ∷ nav_links follow_and_close pathname header_items
    ++ github_link ∷ button (codes "Close") false (set_mobile_menu_open false) ∷ []

-- The picture of the theme's button.
abbrev pub theme_icon : Text → Text
theme_icon theme =
    if text_eq theme light
    then codes "Sun"
    else if text_eq theme dark
    then codes "Moon"
    else codes "Sun"

-- `Header`
unfoldable pub header : Bool → ShellState → List (Item ShellEvent)
header connected s =
    button (codes "Open menu") false (set_mobile_menu_open true)
      ∷ mobile_menu s.mobile_menu_open s.pathname
    ++ (caption (codes "Karadul Mesh VPN")
        ∷ badge (if connected then codes "Connected" else codes "Disconnected")
        ∷ button (codes "Notifications") false notifications
        ∷ caption (theme_icon s.theme)
        ∷ menu (codes "Toggle theme") false (
            (codes "Light", choose_theme light)
            ∷ (codes "Dark", choose_theme dark)
            ∷ (codes "System", choose_theme system)
            ∷ [])
        ∷ [])

-- `Layout`, around the page.
unfoldable pub layout : Bool → ShellState → List (Item ShellEvent)
unfolding sidebar header
layout connected s = sidebar s.pathname ++ header connected s

-- `NotFoundPage`
unfoldable pub not_found_page : List (Item ShellEvent)
not_found_page =
    captions (
      codes "404"
      ∷ codes "Page not found"
      ∷ codes "The page you are looking for doesn't exist or has been moved."
      ∷ [])
    ++ link (codes "Go Home") false (follow (codes "/"))
      ∷ button (codes "Go Back") false go_back
      ∷ []
