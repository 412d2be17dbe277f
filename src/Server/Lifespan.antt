-- ===== src/Server/Lifespan.antt =====
-- src/mcp_server_auth_template/entrypoints/mcp_server.py: the lifespan of build_server, and the clean-up
-- of create_app.
use mcp_server_auth_template.Base.{
  if◌then◌else◌, ap, refl, Bool, Option, String, false, none, some, true, ◌≡◌, ℕ, suc,
}
use mcp_server_auth_template.Base.Result.{Result, err, ok}
use mcp_server_auth_template.Runtime.{RuntimeStatus, initial, is_ready, mark_not_ready, mark_ready}

pub data Phase : Type 0 where
  starting serving stopped : Phase

-- The process: how often the HTTP client was closed, and the observability shut down.
pub record Process : Type 0 where
  pub phase : Phase
  pub status : RuntimeStatus
  pub closed : ℕ
  pub shut_down : ℕ

abbrev pub launched : Process
launched = record { phase = starting; status = initial; closed = 0; shut_down = 0 }

-- How a call ends: by a return, or by raising something.
abbrev pub End : Type 0
End = Option String

-- The last of two ends, of which the second is a `finally`: what it raises replaces the first.
abbrev pub finally : End → End → End
finally first none = first
finally first (some raised) = some raised

-- How the served application, `http_client.aclose()` and `observability.shutdown()` end.
pub record Exits : Type 0 where
  pub body : End
  pub aclose : End
  pub shutdown : End

-- `lifespan` up to its `yield`
unfoldable pub enter : Process → Process
unfolding mark_ready
enter p = record p { phase = serving; status = mark_ready p.status }

-- the `finally` of `lifespan`
unfoldable pub leave : Bool → Exits → Process → End × Process
unfolding mark_not_ready
leave observed x p = (
  finally (finally x.body x.aclose) (if observed then x.shutdown else none),
  record {
    phase = stopped;
    status = mark_not_ready p.status;
    closed = suc p.closed;
    shut_down = if observed then suc p.shut_down else p.shut_down;
  },
)

-- create_app behind the settings: the observability that it has configured is shut down before an
-- exception of the builders leaves it.
unfoldable pub create_app :
    {E A B : Type 0} → Result E A → (A → Result E B) → Process → Result E B × Process
create_app (err e) surface p = (err e, record p { shut_down = suc p.shut_down })
create_app (ok server) surface p = elim (surface server) [
  | err e ↦ (err e, record p { shut_down = suc p.shut_down })
  | ok app ↦ (ok app, p)
]

-- The lifetime of a process that has built its application.
pub data Step (observed : Bool) : Process → Process → Type 0 where
  entered : (p : Process) → p.phase ≡ starting → Step observed p (enter p)
  left : (p : Process) (x : Exits) → p.phase ≡ serving → Step observed p ((leave observed x p).1)

pub data Reach (observed : Bool) : Process → Type 0 where
  begun : Reach observed launched
  stepped : (p q : Process) → Reach observed p → Step observed p q → Reach observed q

-- What holds in each phase.
abbrev pub Agrees : Bool → Phase → Process → Type 0
Agrees observed starting p = (is_ready p.status ≡ false) × (p.closed ≡ 0) × (p.shut_down ≡ 0)
Agrees observed serving p = (is_ready p.status ≡ true) × (p.closed ≡ 0) × (p.shut_down ≡ 0)
Agrees observed stopped p =
    (is_ready p.status ≡ false) × (p.closed ≡ 1) × (p.shut_down ≡ (if observed then 1 else 0))

module _ (observed : Bool) where
  Step-Agrees :
      (p q : Process) (phase : Phase)
      → p.phase ≡ phase
      → Agrees observed phase p
      → Step observed p q
      → Agrees observed q.phase q
  unfolding enter leave is_ready
  Step-Agrees p _ starting e (not_ready, unclosed, up) (entered _ h) = (refl, unclosed, up)
  Step-Agrees p _ starting e agrees (left _ x h) = cc
  Step-Agrees p _ serving e agrees (entered _ h) = cc
  Step-Agrees p _ serving e (ready, unclosed, up) (left _ x h) =
      (refl, ap suc unclosed, left_shut_down p observed up)
    where
      left_shut_down :
          (p : Process) (o : Bool)
          → p.shut_down ≡ 0
          → (if o then suc p.shut_down else p.shut_down) ≡ (if o then 1 else 0)
      left_shut_down p true h = ap suc h
      left_shut_down p false h = h
  Step-Agrees p _ stopped e agrees (entered _ h) = cc
  Step-Agrees p _ stopped e agrees (left _ x h) = cc

  -- However the process runs, it reports readiness exactly while it serves: not before the lifespan
  -- is entered and not after it is left, in whatever way the application ends; then the HTTP client
  -- has been closed exactly once, and the observability, if there is one, shut down exactly once.
  pub Reach-Agrees : (p : Process) → Reach observed p → Agrees observed p.phase p
  unfolding is_ready
  Reach-Agrees _ begun = (refl, refl, refl)
  Reach-Agrees q (stepped p _ r s) = Step-Agrees p q p.phase refl (Reach-Agrees p r) s
