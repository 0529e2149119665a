-- ===== src/Api/Mutations/Runner.antt =====
-- React Query's contract for `useMutation`, on which the mutations of web/src/lib/api.ts rely.
use karadul.Base.{◌≡◌, Text}
use karadul.Api.{Outcome, ok, err, App}
use karadul.Api.Mutations.{Mutation}

-- `mutateAsync(value)`: the mutation function runs first; its value is returned after `onSuccess`,
-- and its error is thrown after `onError`.
pub record Runner : Type 1 where
  pub mutate_async : (V T : Type 0) → Mutation V T → V → App → Outcome T × App
  pub succeeds :
      (V T : Type 0) (m : Mutation V T) (v : V) (app : App) {value : T} {after : App}
      → m.mutation_fn v app ≡ (ok value, after)
      → mutate_async V T m v app ≡ (ok value, m.on_success after)
  pub fails :
      (V T : Type 0) (m : Mutation V T) (v : V) (app : App) {message : Text} {after : App}
      → m.mutation_fn v app ≡ (err message, after)
      → mutate_async V T m v app ≡ (err message, m.on_error message after)
