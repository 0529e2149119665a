-- ===== src/Session/Cases.antt =====
-- The cases of a move that only the mounted page takes, and of a move of the frame, which may mount another
-- page (web/src/App.tsx).
use karadul.Base.{inl, inr, Bool, Bool-cases, Text}
use karadul.Api.Mutations.Runner.{Runner}
use karadul.Shell.{Page, ShellEvent, shell_update, page_of}
use karadul.Session.{World, same_page, mount_pages, shell_of, with_shell, on_page, shell_move}

module _ {ℓ} (match : Text → Text → Bool) (r : Runner) (P : World → Type ℓ) where
  pub on_page_elim :
      (page : Page) (f : World → World) (w : World) → P (f w) → P w → P (on_page match r page f w)
  unfolding on_page
  on_page_elim page f w done before =
      elim (Bool-cases (same_page (page_of match w.pathname) page)) [
        | inl there ↦ rw there done
        | inr elsewhere ↦ rw elsewhere before
      ]

  pub shell_move_elim :
      (back : Text) (e : ShellEvent) (w : World)
      → let moved = with_shell (shell_update back e (shell_of w)) w in
        P moved → P (mount_pages moved) → P (shell_move match r back e w)
  unfolding shell_move
  shell_move_elim back e w stays mounts =
      let moved = with_shell (shell_update back e (shell_of w)) w in
      elim (Bool-cases (same_page (page_of match w.pathname) (page_of match moved.pathname))) [
        | inl there ↦ rw there stays
        | inr elsewhere ↦ rw elsewhere mounts
      ]
