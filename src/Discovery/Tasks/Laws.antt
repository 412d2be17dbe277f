-- ===== src/Discovery/Tasks/Laws.antt =====
-- Single flight of concurrent calls.
use mcp_server_auth_template.Discovery.Tasks.{
  next, Calls, begin_with, cancel, cancels, fetching, is_inside, resume, resumes, ticks, Reach,
  Step, here,
}
use mcp_server_auth_template.Base.{Option, String, ap, none, refl, suc, ℕ, ◌≡◌}
use mcp_server_auth_template.Base.Value.{Value}
use mcp_server_auth_template.Discovery.{OidcMetadata}
use mcp_server_auth_template.Discovery.Tasks.Runs.{
  IsOrderly, alone, cancel_at-IsOrderly, resume_at-IsOrderly,
}
use mcp_server_auth_template.Http.{Bytes}
use mcp_server_auth_template.Jwks.{TtlCache}
use mcp_server_auth_template.Jwks.Resolver.{HttpResponse}
use mcp_server_auth_template.OidcNetwork.{Policy, Urls}

module _ {W Address : Type 0} (urls : Urls Address) (p : Policy)
    (http_get : String → W → Option HttpResponse × W) (loads : Bytes → Option Value)
    (tc : TtlCache OidcMetadata) where
  begin_with-IsOrderly :
      (w : W) → IsOrderly urls p http_get loads tc (begin_with urls p http_get loads tc w)
  begin_with-IsOrderly w = record {
    locked = record { held = λ i e. cc; owned = λ i e. cc };
    sound = λ issuer t m h. cc (tc.cached-empty issuer t, h);
    believed = λ i m e. cc;
    needed = λ i e. cc;
  }

  module _
      (expires : (k : String) (t : ℕ) (c : tc.Cache)
        → tc.cached k t c ≡ none
        → tc.cached k (suc t) c ≡ none) where
    Step-IsOrderly :
        {s t : Calls W tc}
        → Step urls p http_get loads tc s t
        → IsOrderly urls p http_get loads tc s
        → IsOrderly urls p http_get loads tc t
    unfolding resume cancel
    Step-IsOrderly (resumes i {s} {t} r) h =
        resume_at-IsOrderly urls p http_get loads tc i s t (s.place i) refl r h
    Step-IsOrderly (cancels i {s} {t} r) h =
        cancel_at-IsOrderly urls p http_get loads tc i s t (s.place i) refl r h
    Step-IsOrderly (ticks {s}) h = record {
      locked = h.locked;
      sound = h.sound;
      believed = h.believed;
      needed = λ i e. expires p.config.issuer_url s.now s.cache (h.needed i e);
    }

    Reach-IsOrderly_lem :
        (w : W) {s : Calls W tc}
        → Reach urls p http_get loads tc w s
        → IsOrderly urls p http_get loads tc s
    Reach-IsOrderly_lem w here = begin_with-IsOrderly w
    Reach-IsOrderly_lem w (next r step) = Step-IsOrderly step (Reach-IsOrderly_lem w r)

-- However the calls of `resolve` are interleaved, cancelled and delayed, at most one of them requests
-- the document at a time, and only while the cache yields nothing; what a call returns is trusted
-- metadata of the configured issuer, and the cache stays sound; if entries of the cache only
-- disappear as time passes.
pub Reach-IsOrderly :
    {W Address : Type 0} (urls : Urls Address) (p : Policy)
    (http_get : String → W → Option HttpResponse × W) (loads : Bytes → Option Value)
    (tc : TtlCache OidcMetadata)
    (expires : (k : String) (t : ℕ) (c : tc.Cache)
      → tc.cached k t c ≡ none
      → tc.cached k (suc t) c ≡ none)
    (w : W) (s : Calls W tc)
    → Reach urls p http_get loads tc w s
    → IsOrderly urls p http_get loads tc s
      × ((i j : ℕ) → s.place i ≡ fetching → s.place j ≡ fetching → i ≡ j)
Reach-IsOrderly urls p http_get loads tc expires w s r =
    let h = Reach-IsOrderly_lem urls p http_get loads tc expires w r in
    (
      h,
      λ i j at_i at_j.
          alone urls p http_get loads tc s.place s.lock i j h.locked (ap is_inside at_i) at_j,
    )
