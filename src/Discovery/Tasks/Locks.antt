-- ===== src/Discovery/Tasks/Locks.antt =====
-- The lock is held exactly by the call that is inside, whatever the cache does.
use mcp_server_auth_template.Discovery.Tasks.{
  here, next, Calls, Place, Reach, Step, after_read, after_recheck, cancel, cancel_at, cancelled,
  cancels, fetching, finished, is_inside, rechecking, resume, resume_at, resumes, starting,
  take_lock, ticks, waiting,
}
use mcp_server_auth_template.Base.{Option, String, ap, false, none, refl, some, true, ℕ, ◌≡◌}
use mcp_server_auth_template.Base.Result.{ok}
use mcp_server_auth_template.Base.Value.{Value}
use mcp_server_auth_template.Discovery.{OidcMetadata}
use mcp_server_auth_template.Discovery.Tasks.Exclusion.{
  IsLocked, IsLocked-inside, IsLocked-outside, IsLocked-released, IsLocked-taken,
}
use mcp_server_auth_template.Discovery.Tasks.Runs.{some_path}
use mcp_server_auth_template.Http.{Bytes}
use mcp_server_auth_template.Jwks.{TtlCache}
use mcp_server_auth_template.Jwks.Resolver.{HttpResponse}
use mcp_server_auth_template.OidcNetwork.{Policy, Urls}
use mathlib.Core.Path.{subst}

module _ {W Address : Type 0} (urls : Urls Address) (p : Policy)
    (http_get : String → W → Option HttpResponse × W) (loads : Bytes → Option Value)
    (tc : TtlCache OidcMetadata) where
  abbrev Locked : Calls W tc → Type 0
  Locked s = IsLocked s.place s.lock

  read-Locked :
      (i : ℕ) (s : Calls W tc) (o : Option OidcMetadata)
      → is_inside (s.place i) ≡ false
      → Locked s
      → Locked (after_read urls p http_get loads tc i s o)
  read-Locked i s (some m) out h = IsLocked-outside s.place i (finished (ok m)) s.lock out refl h
  read-Locked i s none out h = IsLocked-outside s.place i waiting s.lock out refl h

  recheck-Locked :
      (i : ℕ) (s : Calls W tc) (o : Option OidcMetadata)
      → is_inside (s.place i) ≡ true
      → Locked s
      → Locked (after_recheck urls p http_get loads tc i s o)
  recheck-Locked i s (some m) inside h =
      IsLocked-released s.place i (finished (ok m)) s.lock inside refl h
  recheck-Locked i s none inside h = IsLocked-inside s.place i fetching s.lock inside refl h

  take-Locked :
      (i : ℕ) (s t : Calls W tc) (lock : Option ℕ)
      → s.lock ≡ lock
      → take_lock urls p http_get loads tc i s lock ≡ some t
      → Locked s
      → Locked t
  take-Locked i s t (some holder) e r h = cc
  take-Locked i s t none e r h =
      subst Locked (some_path r)
        (IsLocked-taken s.place i rechecking refl (subst (IsLocked s.place) e h))

  resume_at-Locked :
      (i : ℕ) (s t : Calls W tc) (q : Place)
      → s.place i ≡ q
      → resume_at urls p http_get loads tc i s q ≡ some t
      → Locked s
      → Locked t
  resume_at-Locked i s t starting e r h =
      subst Locked (some_path r) (read-Locked i s _ (ap is_inside e) h)
  resume_at-Locked i s t waiting e r h = take-Locked i s t s.lock refl r h
  resume_at-Locked i s t rechecking e r h =
      subst Locked (some_path r) (recheck-Locked i s _ (ap is_inside e) h)
  resume_at-Locked i s t fetching e r h =
      subst Locked (some_path r) (IsLocked-released s.place i _ s.lock (ap is_inside e) refl h)
  resume_at-Locked i s t cancelled e r h = cc
  resume_at-Locked i s t (finished result) e r h = cc

  cancel_at-Locked :
      (i : ℕ) (s t : Calls W tc) (q : Place)
      → s.place i ≡ q
      → cancel_at urls p http_get loads tc i s q ≡ some t
      → Locked s
      → Locked t
  cancel_at-Locked i s t starting e r h =
      subst Locked (some_path r)
        (IsLocked-outside s.place i cancelled s.lock (ap is_inside e) refl h)
  cancel_at-Locked i s t waiting e r h =
      subst Locked (some_path r)
        (IsLocked-outside s.place i cancelled s.lock (ap is_inside e) refl h)
  cancel_at-Locked i s t rechecking e r h =
      subst Locked (some_path r)
        (IsLocked-released s.place i cancelled s.lock (ap is_inside e) refl h)
  cancel_at-Locked i s t fetching e r h =
      subst Locked (some_path r)
        (IsLocked-released s.place i cancelled s.lock (ap is_inside e) refl h)
  cancel_at-Locked i s t cancelled e r h = cc
  cancel_at-Locked i s t (finished result) e r h = cc

  Step-Locked : {s t : Calls W tc} → Step urls p http_get loads tc s t → Locked s → Locked t
  unfolding resume cancel
  Step-Locked (resumes i {s} {t} r) h = resume_at-Locked i s t (s.place i) refl r h
  Step-Locked (cancels i {s} {t} r) h = cancel_at-Locked i s t (s.place i) refl r h
  Step-Locked (ticks {s}) h = h

  pub Reach-IsLocked :
      (w : W) {s : Calls W tc} → Reach urls p http_get loads tc w s → IsLocked s.place s.lock
  Reach-IsLocked w here = record { held = λ i e. cc; owned = λ i e. cc }
  Reach-IsLocked w (next r step) = Step-Locked step (Reach-IsLocked w r)
