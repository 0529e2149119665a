-- ===== src/Pages/Settings/Syncing.antt =====
-- What the effects of the settings page (web/src/pages/settings.tsx) do to the edits of the user.
use karadul.Base.{
  ℕ, suc, ◌≡◌, refl, sym, ap, ◌∙◌, ◌≢◌, ◌⊎◌, inl, inr, Bool, true, false, Option, none, some, List,
  [], ◌∷◌, foldl, if◌then◌else◌, Bool-cases, Text, text_eq_refl, eq_of_text_eq,
}
use karadul.Api.{Request, Reply, Outcome}
use karadul.Api.Mutations.{AuthKey, AclRule, ServerConfig}
use karadul.Api.Mutations.Bodies.{config_json_injective, rule_items_injective}
use karadul.Api.Mutations.Runner.{Runner}
use karadul.Api.Queries.{AclReply}
use karadul.Pages.Settings.{SettingsPage, sync_config, sync_acl_rules}
use karadul.Pages.Settings.Events.{SettingsEvent, SettingsState, settings_update}
use karadul.Pages.Settings.Effects.{
  config_text, rules_text, Effects, same_text, is_stale, rules_of, commit, render, rendered_session,
}

-- The effects that have run with these data.
abbrev pub seen_of : Option ServerConfig → Option AclReply → Effects
seen_of config reply = record {
  config_seen = some (config_text config);
  rules_seen = some (rules_text reply);
}

-- The data if there are any.
abbrev pub taken : {A : Type 0} → Option A → A → A
taken none old = old
taken (some new) old = new

abbrev pub taken_rules : Option AclReply → List AclRule → List AclRule
taken_rules none old = old
taken_rules (some reply) old = reply.rules

same_text_refl : (s : Option Text) → same_text s s ≡ true
same_text_refl none = refl
same_text_refl (some s) = text_eq_refl s

eq_of_same_text : (s t : Option Text) → same_text s t ≡ true → s ≡ t
eq_of_same_text none none h = refl
eq_of_same_text none (some t) h = absurd (cc)
eq_of_same_text (some s) none h = absurd (cc)
eq_of_same_text (some s) (some t) h = ap some (eq_of_text_eq s t h)

config_text_injective : (a b : Option ServerConfig) → config_text a ≡ config_text b → a ≡ b
config_text_injective none none e = refl
config_text_injective none (some b) e = absurd (cc)
config_text_injective (some a) none e = absurd (cc)
config_text_injective (some a) (some b) e = ap some (config_json_injective a b (cc))

rules_text_injective : (a b : Option AclReply) → rules_text a ≡ rules_text b → a ≡ b
rules_text_injective none none e = refl
rules_text_injective none (some b) e = absurd (cc)
rules_text_injective (some a) none e = absurd (cc)
rules_text_injective (some a) (some b) e =
    ap (λ (rules : List AclRule). some (record { rules = rules }))
      (rule_items_injective a.rules b.rules (cc))

-- An effect runs exactly if the data have changed, where their text tells them apart.
stale_iff :
    {A : Type 0} (text : A → Option Text) (old new : A)
    → ((a b : A) → text a ≡ text b → a ≡ b)
    → ((new ≡ old) × (is_stale (some (text old)) (text new) ≡ false))
      ⊎ ((new ≢ old) × (is_stale (some (text old)) (text new) ≡ true))
stale_iff text old new injective = elim (Bool-cases (same_text (text old) (text new))) [
  | inl same ↦
      inl (sym (injective old new (eq_of_same_text (text old) (text new) same)), rw same refl)
  | inr other ↦ inr (
    λ e.
        let kept : same_text (text old) (text old) ≡ true = same_text_refl (text old) in
        let moved : same_text (text old) (text new) ≡ true = rw e kept in cc,
    rw other refl,
  )
]

-- The two effects write a field each.
synced :
    (config_runs rules_run : Bool) (now : Option ServerConfig) (fresh : Option AclReply)
    (page : SettingsPage)
    → let first = if config_runs then sync_config now page else page in
      (if rules_run then sync_acl_rules (rules_of fresh) first else first) ≡ record page {
        config_form = if config_runs then taken now page.config_form else page.config_form;
        acl_rules = if rules_run then taken_rules fresh page.acl_rules else page.acl_rules;
      }
unfolding sync_config sync_acl_rules
synced true true none none page = refl
synced true true none (some reply) page = refl
synced true true (some config) none page = refl
synced true true (some config) (some reply) page = refl
synced true false none fresh page = refl
synced true false (some config) fresh page = refl
synced false true now none page = refl
synced false true now (some reply) page = refl
synced false false now fresh page = refl

-- After a rendering with other data than the last, the effects have seen them. The configuration form
-- is as it was if the configuration is the same, and else is the configuration where there is one; the
-- rules likewise. Nothing else of the page changes.
pub commit_lem :
    (config now : Option ServerConfig) (reply fresh : Option AclReply) (page : SettingsPage)
    → let (ran, seen, after) = commit now fresh (seen_of config reply, page) in
      (seen ≡ seen_of now fresh)
      × (after ≡ record page { config_form = after.config_form; acl_rules = after.acl_rules })
      × (((now ≡ config) × (after.config_form ≡ page.config_form))
          ⊎ ((now ≢ config) × (after.config_form ≡ taken now page.config_form)))
      × (((fresh ≡ reply) × (after.acl_rules ≡ page.acl_rules))
          ⊎ ((fresh ≢ reply) × (after.acl_rules ≡ taken_rules fresh page.acl_rules)))
unfolding commit sync_config sync_acl_rules
commit_lem config now reply fresh page =
    rw
      (synced (is_stale (some (config_text config)) (config_text now))
        (is_stale (some (rules_text reply)) (rules_text fresh)) now fresh page)
      (
        refl,
        refl,
        elim (stale_iff config_text config now config_text_injective) [
          | inl (e, kept) ↦ inl (e, rw kept refl)
          | inr (ne, runs) ↦ inr (ne, rw runs refl)
        ],
        elim (stale_iff rules_text reply fresh rules_text_injective) [
          | inl (e, kept) ↦ inl (e, rw kept refl)
          | inr (ne, runs) ↦ inr (ne, rw runs refl)
        ],
      )

-- The effects leave the other fields alone.
pub commit-admin_token :
    (now : Option ServerConfig) (fresh : Option AclReply) (seen : Effects) (page : SettingsPage)
    → let (ran, after_seen, after) = commit now fresh (seen, page) in
      after.admin_token ≡ page.admin_token
unfolding commit
commit-admin_token now fresh seen page = ap SettingsPage.admin_token (
    synced (is_stale seen.config_seen (config_text now))
      (is_stale seen.rules_seen (rules_text fresh)) now fresh page)

-- With the same data again neither effect runs.
commit_again :
    (config : Option ServerConfig) (reply : Option AclReply) (page : SettingsPage)
    → commit config reply (seen_of config reply, page) ≡ (false, seen_of config reply, page)
unfolding commit
commit_again config reply page =
    rw (same_text_refl (config_text config), same_text_refl (rules_text reply)) refl

quiet :
    (fuel : ℕ) (config : Option ServerConfig) (reply : Option AclReply) (seen : Effects)
    (page : SettingsPage)
    → commit config reply (seen, page) ≡ (false, seen, page)
    → render (suc fuel) config reply (seen, page) ≡ some (seen, page)
unfolding render
quiet fuel config reply seen page e =
    ap
      (λ (c : Bool × Effects × SettingsPage).
        let (ran, seen_now, after) = c in
        if ran then render fuel config reply (seen_now, after) else some (seen_now, after))
      e

either_way :
    {A : Type 0} (ran : Bool) {rest : Option A} {after : A}
    → rest ≡ some after
    → (if ran then rest else some after) ≡ some after
either_way true e = e
either_way false e = refl

-- The rendering settles: whatever the effects have seen before and whatever the page holds, the loop of
-- renderings ends after the second at the latest, with what the first has made of the page, and
-- rendering once more with the same data changes nothing.
pub render-settled :
    (fuel : ℕ) (config : Option ServerConfig) (reply : Option AclReply) (before : Effects)
    (page : SettingsPage)
    → let (ran, seen, after) = commit config reply (before, page) in
      (render (suc (suc fuel)) config reply (before, page) ≡ some (seen, after))
      × (commit config reply (seen, after) ≡ (false, seen, after))
unfolding render commit
render-settled fuel config reply before page =
    let (ran, seen, after) = commit config reply (before, page) in
    let again : commit config reply (seen, after) ≡ (false, seen, after) =
      commit_again config reply after in
    (either_way ran (quiet fuel config reply seen after again), again)

module _ (r : Runner) (serve : Request → Reply) (parse : Text → Outcome (Unit {0}))
    (parse_key : Text → Outcome AuthKey) (config : Option ServerConfig)
    (reply : Option AclReply) where
  -- The edits of the user survive: while the queries keep bringing the same data, a session that renders
  -- the page after every event leaves what the events alone make of it.
  pub rendered_session-foldl :
      (events : List SettingsEvent) (s : SettingsState)
      → rendered_session
          (settings_update r serve parse parse_key)
          config
          reply
          events
          (seen_of config reply, s)
        ≡ (
          seen_of config reply,
          foldl (λ t e. settings_update r serve parse parse_key e t) s events,
        )
  unfolding rendered_session
  rendered_session-foldl [] s = refl
  rendered_session-foldl (e ∷ events) s =
      let next = settings_update r serve parse parse_key e s in
      ap
        (λ (c : Bool × Effects × SettingsPage).
          let (ran, seen, page) = c in
          rendered_session (settings_update r serve parse parse_key) config reply events
            (seen, record next { page = page }))
        (commit_again config reply next.page)
      ∙ rendered_session-foldl events next
