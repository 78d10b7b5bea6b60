-- ===== src/Api/SessionHandler/Handle/Cache.antt =====
-- The age of the workspaces that the handler works with (getWorkspace of
-- api/src/events/session-payload.handler.ts).
use mathlib.Core.Path.{subst}
use mathlib.Core.Option.{some-injective}
use staminads.Common.{
  ltb→lt, ℕ, ◌+◌, ◌<◌, ◌≤◌, String, Option, none, some, ◌≡◌, refl, sym, ◌∙◌, arith, ltb, Bool-cases,
  String-cases, inl, inr,
}
use staminads.Common.Dict.{
  get, put, get-put_self, get-put_other, remove, get-remove_self, get-remove_other,
}
use staminads.Api.SessionHandler.Handle.{
  Workspace, CachedWorkspace, Cache, cache_ttl_ms, fetched, cached_or_fetched, get_workspace,
  handle_changed,
}

-- The store at each moment.
module _ (store : ℕ → String → Option Workspace) where
  -- An entry is what the store had a minute before it expires, at a moment that has passed.
  abbrev pub IsFaithful : ℕ → Cache → Type 0
  IsFaithful now cache =
      (id : String) (c : CachedWorkspace)
      → get cache id ≡ some c
      → (read_at : ℕ) × (read_at ≤ now)
        × (c.expires_at ≡ read_at + cache_ttl_ms)
        × (store read_at id ≡ some c.workspace)

  -- What the store had within the last minute.
  abbrev pub IsRecent : ℕ → String → Option Workspace → Type 0
  IsRecent now id none = store now id ≡ none
  IsRecent now id (some w) =
      (read_at : ℕ) × (read_at ≤ now) × (now < read_at + cache_ttl_ms) × (store read_at id ≡ some w)

  -- What is faithful at an entry, once it is known to be one.
  abbrev pub IsRead : ℕ → String → CachedWorkspace → Type 0
  IsRead now id c =
      (read_at : ℕ) × (read_at ≤ now)
      × (c.expires_at ≡ read_at + cache_ttl_ms)
      × (store read_at id ≡ some c.workspace)

  IsFaithful-later :
      (before now : ℕ) (cache : Cache)
      → before ≤ now
      → IsFaithful before cache
      → IsFaithful now cache
  IsFaithful-later before now cache h faithful id c found =
      let (read_at, past, expiry, stored) = faithful id c found in
      (read_at, omega arith, expiry, stored)

  put-IsFaithful :
      (id : String) (now : ℕ) (cache : Cache) (c : CachedWorkspace)
      → IsRead now id c
      → IsFaithful now cache
      → IsFaithful now (put cache id c)
  put-IsFaithful id now cache c read h other d found = elim (String-cases id other) [
    | inl same ↦
        let found' = subst (λ k. get (put cache id c) k ≡ some d) (sym same) found in
        let it = some-injective _ _ (sym (get-put_self cache id c) ∙ found') in
        subst (IsRead now other) it (subst (λ k. IsRead now k c) same read)
    | inr different ↦ h other d (sym (get-put_other cache id other c different) ∙ found)
  ]

  remove-IsFaithful :
      (id : String) (now : ℕ) (cache : Cache)
      → IsFaithful now cache
      → IsFaithful now (remove cache id)
  remove-IsFaithful id now cache h other d found = elim (String-cases id other) [
    | inl same ↦
        let found' = subst (λ k. get (remove cache id) k ≡ some d) (sym same) found in
        absurd (ground (arith, get-remove_self cache id))
    | inr different ↦ h other d (sym (get-remove_other cache id other different) ∙ found)
  ]

  fetched-IsFaithful :
      (id : String) (now : ℕ) (cache : Cache) (w : Option Workspace)
      → store now id ≡ w
      → IsFaithful now cache
      → IsFaithful now (fetched id now cache w).0 × IsRecent now id (fetched id now cache w).1
  fetched-IsFaithful id now cache none e h = (h, e)
  fetched-IsFaithful id now cache (some w) e h = (
    put-IsFaithful id now cache (record { workspace = w; expires_at = now + cache_ttl_ms })
        (now, omega arith, refl, e) h,
    (now, omega arith, omega arith, e),
  )

  cached_or_fetched-IsFaithful :
      (id : String) (now : ℕ) (cache : Cache) (o : Option CachedWorkspace)
      → get cache id ≡ o
      → IsFaithful now cache
      → let answer = cached_or_fetched (store now) id now cache o in
        IsFaithful now answer.0 × IsRecent now id answer.1
  cached_or_fetched-IsFaithful id now cache none e h =
      fetched-IsFaithful id now cache (store now id) refl h
  cached_or_fetched-IsFaithful id now cache (some c) e h =
      elim (Bool-cases (ltb now c.expires_at)) [
        | inl fresh ↦
            let (read_at, past, expiry, stored) = h id c e in
            let in_time = ltb→lt now c.expires_at fresh in
            rw fresh (h, (read_at, past, omega arith, stored))
        | inr stale ↦ rw stale (fetched-IsFaithful id now cache (store now id) refl h)
      ]

  -- getWorkspace gives a workspace as the store has had it less than a minute ago, or refuses when
  -- the store has none now; and the cache stays faithful, also when an entry is dropped because
  -- filters or settings have changed. The clock does not run backwards.
  pub get_workspace-IsRecent :
      (before now : ℕ) (id changed : String) (cache : Cache)
      → before ≤ now
      → IsFaithful before cache
      → let answer = get_workspace (store now) id now cache in
        IsFaithful now answer.0
        × IsRecent now id answer.1
        × IsFaithful now (handle_changed changed answer.0)
  unfolding get_workspace handle_changed
  get_workspace-IsRecent before now id changed cache h faithful =
      let (kept, recent) =
        cached_or_fetched-IsFaithful id now cache (get cache id) refl
          (IsFaithful-later before now cache h faithful) in
      (kept, recent, remove-IsFaithful changed now (get_workspace (store now) id now cache).0 kept)
