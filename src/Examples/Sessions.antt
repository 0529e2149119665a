-- ===== src/Examples/Sessions.antt =====
-- Sessions of the store and of the theme.
use karadul.Base.{
  ◌≡◌, refl, ◌≢◌, true, false, not, ◌&&◌, ◌||◌, List, [], ◌∷◌, ◌++◌, replicate, codes, text_eq,
}
use karadul.Store.{
  Action, initial_state, set_nodes, set_is_connected, toggle_dark_mode, traffic_point, run,
  max_traffic_history,
}
use karadul.Store.History.{points_added, take_last, traffic_history-run}
use karadul.Store.Frame.{IsLatest, run-IsLatest}
use karadul.Theme.{dark, light, is_token, apply_theme}
use karadul.Theme.Classes.{has_class, shown_theme, has_class-apply_theme}
use karadul.Examples.Data.{laptop, server}

-- Thirty-two points and other actions between them.
abbrev ticks : List Action
ticks = replicate 31 (traffic_point (codes "12:00") 5 1)

abbrev session : List Action
session =
    set_nodes (laptop ∷ []) ∷ toggle_dark_mode ∷ ticks
    ++ set_is_connected true ∷ set_nodes (server ∷ []) ∷ traffic_point (codes "12:01") 7 2 ∷ []

traffic_history-run_example :
    (run initial_state session).traffic_history
    ≡ take_last max_traffic_history (points_added session)
traffic_history-run_example = traffic_history-run session

run-IsLatest_example : IsLatest initial_state (run initial_state session) session
run-IsLatest_example = run-IsLatest session initial_state

has_class-apply_theme_example :
    let (after, returns) = apply_theme true (codes "system") (light ∷ codes "app" ∷ []) in
    (returns ≡ is_token (shown_theme true (codes "system")))
    × (has_class dark after ≡ (
        (returns && text_eq (shown_theme true (codes "system")) dark)
        || (not (text_eq light dark)
            && (not (text_eq dark dark) && has_class dark (light ∷ codes "app" ∷ [])))))
has_class-apply_theme_example =
    has_class-apply_theme true (codes "system") dark (light ∷ codes "app" ∷ [])

-- A stored text with white space: both classes are gone, and the effect throws.
white_space_throws :
    apply_theme true (codes "very dark") (light ∷ codes "app" ∷ []) ≡ (codes "app" ∷ [], false)
unfolding apply_theme
white_space_throws = refl

theme_chosen : light ≢ []
theme_chosen h = cc

keys_differ : codes "other" ≢ codes "ui-theme"
keys_differ h = cc
