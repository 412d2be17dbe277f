-- ===== src/Discovery/Tasks.antt =====
-- src/mcp_server_auth_template/adapters/oidc_discovery.py: concurrent calls of `resolve` for the configured
-- issuer, which may switch at the lock and at the request. A call is known by a number.
use mcp_server_auth_template.Base.{
  Bool, Option, String, eqb, false, if◌then◌else◌, none, some, suc, true, ℕ, ◌≡◌,
}
use mcp_server_auth_template.Base.Result.{Result, ok}
use mcp_server_auth_template.Base.Value.{Value}
use mcp_server_auth_template.Discovery.{Discovered, OidcMetadata, fetch, remember_metadata}
use mcp_server_auth_template.Http.{Bytes}
use mcp_server_auth_template.Jwks.{TtlCache}
use mcp_server_auth_template.Jwks.Resolver.{HttpResponse, TokenVerificationError}
use mcp_server_auth_template.OidcNetwork.{Policy, Urls}
pub mod Exclusion
pub mod Runs
pub mod Laws
pub mod Locks
pub mod Progress
mod Tests

-- Where a call stands: before its first read of the cache, at the lock, behind it before the second
-- read, in the request, at its end, or cancelled.
pub data Place : Type 0 where
  starting waiting rechecking fetching cancelled : Place
  finished : Result TokenVerificationError OidcMetadata → Place

-- The call holds the lock.
abbrev pub is_inside : Place → Bool
is_inside rechecking = true
is_inside fetching = true
is_inside _ = false

-- The calls, the holder of `_fetch_lock`, the cache, the clock and the world.
pub record Calls (W : Type 0) (tc : TtlCache OidcMetadata) : Type 0 where
  pub place : ℕ → Place
  pub lock : Option ℕ
  pub cache : tc.Cache
  pub now : ℕ
  pub world : W

abbrev pub move : ℕ → Place → (ℕ → Place) → ℕ → Place
move i p place j = if eqb i j then p else place j

module _ {W Address : Type 0} (urls : Urls Address) (p : Policy)
    (http_get : String → W → Option HttpResponse × W) (loads : Bytes → Option Value)
    (tc : TtlCache OidcMetadata) where
  abbrev pub begin_with : W → Calls W tc
  begin_with w = record { place = λ i. starting; lock = none; cache = tc.empty; now = 0; world = w }

  -- the first read of the cache
  abbrev pub after_read : ℕ → Calls W tc → Option OidcMetadata → Calls W tc
  after_read i s (some m) = record s { place = move i (finished (ok m)) s.place }
  after_read i s none = record s { place = move i waiting s.place }

  -- The read behind the lock, which the call leaves with what it finds.
  abbrev pub after_recheck : ℕ → Calls W tc → Option OidcMetadata → Calls W tc
  after_recheck i s (some m) = record s { place = move i (finished (ok m)) s.place; lock = none }
  after_recheck i s none = record s { place = move i fetching s.place }

  -- The end of the request: the metadata are stored, and the lock is released either way.
  abbrev pub after_fetch : ℕ → Calls W tc → Discovered urls p http_get loads tc → Calls W tc
  after_fetch i s (result, cache, world) = record s {
    place = move i (finished result) s.place;
    lock = none;
    cache = cache;
    world = world;
  }

  abbrev pub take_lock : ℕ → Calls W tc → Option ℕ → Option (Calls W tc)
  take_lock i s (some holder) = none
  take_lock i s none = some (record s { place = move i rechecking s.place; lock = some i })

  -- A call goes on to its next switch, or is blocked.
  abbrev pub resume_at : ℕ → Calls W tc → Place → Option (Calls W tc)
  resume_at i s starting = some (after_read i s (tc.cached p.config.issuer_url s.now s.cache))
  resume_at i s waiting = take_lock i s s.lock
  resume_at i s rechecking = some (after_recheck i s (tc.cached p.config.issuer_url s.now s.cache))
  resume_at i s fetching = some (
      after_fetch i s (
        remember_metadata urls p http_get loads tc p.config.issuer_url s.now s.cache
          (fetch urls p http_get loads tc s.world)))
  resume_at i s cancelled = none
  resume_at i s (finished result) = none

  unfoldable pub resume : ℕ → Calls W tc → Option (Calls W tc)
  unfolding fetch
  resume i s = resume_at i s (s.place i)

  -- A call is cancelled at a switch; `async with` releases the lock that it holds.
  abbrev pub cancel_at : ℕ → Calls W tc → Place → Option (Calls W tc)
  cancel_at i s starting = some (record s { place = move i cancelled s.place })
  cancel_at i s waiting = some (record s { place = move i cancelled s.place })
  cancel_at i s rechecking = some (record s { place = move i cancelled s.place; lock = none })
  cancel_at i s fetching = some (record s { place = move i cancelled s.place; lock = none })
  cancel_at i s cancelled = none
  cancel_at i s (finished result) = none

  unfoldable pub cancel : ℕ → Calls W tc → Option (Calls W tc)
  cancel i s = cancel_at i s (s.place i)

  pub data Step : Calls W tc → Calls W tc → Type 0 where
    resumes : (i : ℕ) {s t : Calls W tc} → resume i s ≡ some t → Step s t
    cancels : (i : ℕ) {s t : Calls W tc} → cancel i s ≡ some t → Step s t
    ticks : {s : Calls W tc} → Step s (record s { now = suc s.now })

  pub data Reach (w : W) : Calls W tc → Type 0 where
    here : Reach w (begin_with w)
    next : {s t : Calls W tc} → Reach w s → Step s t → Reach w t
