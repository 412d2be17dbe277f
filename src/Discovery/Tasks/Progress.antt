-- ===== src/Discovery/Tasks/Progress.antt =====
-- Every call can be brought to its end: no deadlock at the lock.
-- A call that has not ended.
use mcp_server_auth_template.Base.{
  Bool, Bool-cases, Option, String, ap, eqb, eqb_iff, false, inl, inr, none, refl, some, sym, true,
  ℕ, ◌∙◌, ◌≡◌, ◌≢◌, ◌⊎◌,
}
use mcp_server_auth_template.Base.Result.{Result, ok}
use mcp_server_auth_template.Base.Value.{Value}
use mcp_server_auth_template.Discovery.{OidcMetadata, fetch, remember_metadata}
use mcp_server_auth_template.Discovery.Tasks.{
  next, Calls, Place, Reach, after_fetch, after_read, after_recheck, cancelled, fetching, finished,
  is_inside, move, rechecking, resume, resume_at, resumes, starting, waiting,
}
use mcp_server_auth_template.Discovery.Tasks.Exclusion.{IsLocked, IsLocked-outside}
use mcp_server_auth_template.Discovery.Tasks.Locks.{Reach-IsLocked}
use mcp_server_auth_template.Http.{Bytes}
use mcp_server_auth_template.Jwks.{TtlCache}
use mcp_server_auth_template.Jwks.Resolver.{HttpResponse, TokenVerificationError}
use mcp_server_auth_template.OidcNetwork.{Policy, Urls}

abbrev pub is_active : Place → Bool
is_active cancelled = false
is_active (finished result) = false
is_active _ = true

move_self : (i : ℕ) (q : Place) (place : ℕ → Place) → move i q place i ≡ q
move_self i q place = rw ((eqb_iff i i).1 refl) refl

move_other : (i k : ℕ) (q : Place) (place : ℕ → Place) → k ≢ i → move i q place k ≡ place k
move_other i k q place other = elim (Bool-cases (eqb i k)) [
  | inl same ↦ absurd (other (sym ((eqb_iff i k).0 same)))
  | inr differs ↦ rw differs refl
]

module _ {W Address : Type 0} (urls : Urls Address) (p : Policy)
    (http_get : String → W → Option HttpResponse × W) (loads : Bytes → Option Value)
    (tc : TtlCache OidcMetadata) where
  -- A run in which only the allowed calls go on, and nothing else happens.
  pub data Runs (allowed : ℕ → Type 0) : Calls W tc → Calls W tc → Type 0 where
    stays : {s : Calls W tc} → Runs allowed s s
    goes :
        (j : ℕ) {s t u : Calls W tc}
        → allowed j
        → resume urls p http_get loads tc j s ≡ some t
        → Runs allowed t u
        → Runs allowed s u

  Runs-Reach :
      (w : W) (allowed : ℕ → Type 0) {s t : Calls W tc}
      → Runs allowed s t
      → Reach urls p http_get loads tc w s
      → Reach urls p http_get loads tc w t
  Runs-Reach w allowed stays r = r
  Runs-Reach w allowed (goes j {s} {t} {u} ok_j step rest) r =
      Runs-Reach w allowed {s = t} {t = u} rest (next {s = s} {t = t} r (resumes j step))

  module _ (allowed : ℕ → Type 0) where
    -- The call is brought to its end.
    record Ends (i : ℕ) (s : Calls W tc) : Type 0 where
      last : Calls W tc
      run : Runs allowed s last
      result : Result TokenVerificationError OidcMetadata
      ended : last.place i ≡ finished result

    -- It also leaves the lock free, and every other call where it was.
    record Frees (i : ℕ) (s : Calls W tc) : Type 0 where
      end : Ends i s
      free : end.last.lock ≡ none
      others : (k : ℕ) → k ≢ i → end.last.place k ≡ s.place k

    goes_from :
        (i : ℕ) (s t u : Calls W tc) (q : Place)
        → allowed i
        → s.place i ≡ q
        → resume_at urls p http_get loads tc i s q ≡ some t
        → Runs allowed t u
        → Runs allowed s u
    unfolding resume
    goes_from i s t u q ok_i at step rest = goes i {s = s} {t = t} {u = u} ok_i (rw at step) rest

    module _ (i : ℕ) (ok_i : allowed i) where
      fetching-Frees : (s : Calls W tc) → s.place i ≡ fetching → Frees i s
      fetching-Frees s at =
          let done =
            remember_metadata urls p http_get loads tc p.config.issuer_url s.now s.cache
              (fetch urls p http_get loads tc s.world) in
          let t = after_fetch urls p http_get loads tc i s done in
          record {
            end = record {
              last = t;
              run = goes_from i s t t fetching ok_i at refl stays;
              result = done.0;
              ended = move_self i (finished done.0) s.place;
            };
            free = refl;
            others = λ k other. move_other i k (finished done.0) s.place other;
          }

      recheck-Frees :
          (s : Calls W tc) (o : Option OidcMetadata)
          → s.place i ≡ rechecking
          → tc.cached p.config.issuer_url s.now s.cache ≡ o
          → Frees i s
      recheck-Frees s (some m) at held =
          let t = after_recheck urls p http_get loads tc i s (some m) in
          record {
            end = record {
              last = t;
              run = goes_from i s t t rechecking ok_i at (rw held refl) stays;
              result = ok m;
              ended = move_self i (finished (ok m)) s.place;
            };
            free = refl;
            others = λ k other. move_other i k (finished (ok m)) s.place other;
          }
      recheck-Frees s none at held =
          let t = after_recheck urls p http_get loads tc i s none in
          let later = fetching-Frees t (move_self i fetching s.place) in
          record {
            end = record {
              last = later.end.last;
              run = goes_from i s t later.end.last rechecking ok_i at (rw held refl) later.end.run;
              result = later.end.result;
              ended = later.end.ended;
            };
            free = later.free;
            others = λ k other. later.others k other ∙ move_other i k fetching s.place other;
          }

      inside-Frees : (s : Calls W tc) (q : Place) → s.place i ≡ q → is_inside q ≡ true → Frees i s
      inside-Frees s rechecking at inside = recheck-Frees s _ at refl
      inside-Frees s fetching at inside = fetching-Frees s at
      inside-Frees s starting at inside = cc
      inside-Frees s waiting at inside = cc
      inside-Frees s cancelled at inside = cc
      inside-Frees s (finished r) at inside = cc

      waiting-Ends : (s : Calls W tc) → s.place i ≡ waiting → s.lock ≡ none → Ends i s
      waiting-Ends s at free =
          let t : Calls W tc = record s { place = move i rechecking s.place; lock = some i } in
          let later = recheck-Frees t _ (move_self i rechecking s.place) refl in
          record {
            last = later.end.last;
            run = goes_from i s t later.end.last waiting ok_i at (rw free refl) later.end.run;
            result = later.end.result;
            ended = later.end.ended;
          }

    Runs-append : {s t u : Calls W tc} → Runs allowed s t → Runs allowed t u → Runs allowed s u
    Runs-append stays rest = rest
    Runs-append (goes j {t = m} ok_j step more) rest =
        goes j {t = m} ok_j step (Runs-append {s = m} more rest)

    -- Where the lock is held, its holder is brought to its end first.
    lock-Ends :
        (i : ℕ) (s : Calls W tc) (lock : Option ℕ)
        → allowed i
        → ((j : ℕ) → s.lock ≡ some j → allowed j)
        → s.place i ≡ waiting
        → s.lock ≡ lock
        → IsLocked s.place s.lock
        → Ends i s
    lock-Ends i s none ok_i ok_holder at free locked = waiting-Ends i ok_i s at free
    lock-Ends i s (some j) ok_i ok_holder at taken locked =
        let inside = locked.owned j taken in
        let first = inside-Frees j (ok_holder j taken) s (s.place j) refl inside in
        let apart : i ≢ j = λ e.
          (let out : is_inside (s.place j) ≡ false = ap is_inside (ap s.place (sym e) ∙ at) in
            cc (inside, out)) in
        let t = first.end.last in
        let second = waiting-Ends i ok_i t (first.others i apart ∙ at) first.free in
        record {
          last = second.last;
          run = Runs-append {s = s} {t = t} {u = second.last} first.end.run second.run;
          result = second.result;
          ended = second.ended;
        }

    read-Ends :
        (i : ℕ) (s : Calls W tc) (o : Option OidcMetadata)
        → allowed i
        → ((j : ℕ) → s.lock ≡ some j → allowed j)
        → s.place i ≡ starting
        → tc.cached p.config.issuer_url s.now s.cache ≡ o
        → IsLocked s.place s.lock
        → Ends i s
    read-Ends i s (some m) ok_i ok_holder at held locked =
        let t = after_read urls p http_get loads tc i s (some m) in
        record {
          last = t;
          run = goes_from i s t t starting ok_i at (rw held refl) stays;
          result = ok m;
          ended = move_self i (finished (ok m)) s.place;
        }
    read-Ends i s none ok_i ok_holder at held locked =
        let t = after_read urls p http_get loads tc i s none in
        let later =
          lock-Ends i t s.lock ok_i ok_holder (move_self i waiting s.place) refl
            (IsLocked-outside s.place i waiting s.lock (ap is_inside at) refl locked) in
        record {
          last = later.last;
          run = goes_from i s t later.last starting ok_i at (rw held refl) later.run;
          result = later.result;
          ended = later.ended;
        }

    active-Ends :
        (i : ℕ) (s : Calls W tc) (q : Place)
        → allowed i
        → ((j : ℕ) → s.lock ≡ some j → allowed j)
        → s.place i ≡ q
        → is_active q ≡ true
        → IsLocked s.place s.lock
        → Ends i s
    active-Ends i s starting ok_i ok_holder at a locked =
        read-Ends i s _ ok_i ok_holder at refl locked
    active-Ends i s waiting ok_i ok_holder at a locked =
        lock-Ends i s s.lock ok_i ok_holder at refl locked
    active-Ends i s rechecking ok_i ok_holder at a locked =
        (inside-Frees i ok_i s rechecking at refl).end
    active-Ends i s fetching ok_i ok_holder at a locked =
        (inside-Frees i ok_i s fetching at refl).end
    active-Ends i s cancelled ok_i ok_holder at a locked = cc
    active-Ends i s (finished r) ok_i ok_holder at a locked = cc

-- The call itself, and the one that holds the lock.
abbrev pub Involved : {W : Type 0} {tc : TtlCache OidcMetadata} → Calls W tc → ℕ → ℕ → Type 0
Involved s i j = (j ≡ i) ⊎ (s.lock ≡ some j)

-- No deadlock, however the calls were interleaved, cancelled and delayed before: a call that has not
-- ended ends with a result after finitely many steps of itself and of the call that holds the lock
-- alone, without any other call, any cancellation or the passing of time.
pub Reach-progress :
    {W Address : Type 0} (urls : Urls Address) (p : Policy)
    (http_get : String → W → Option HttpResponse × W) (loads : Bytes → Option Value)
    (tc : TtlCache OidcMetadata) (w : W) (s : Calls W tc) (i : ℕ)
    → Reach urls p http_get loads tc w s
    → is_active (s.place i) ≡ true
    → (t : Calls W tc) × Runs urls p http_get loads tc (Involved s i) s t
      × Reach urls p http_get loads tc w t
      × ((result : Result TokenVerificationError OidcMetadata) × (t.place i ≡ finished result))
Reach-progress urls p http_get loads tc w s i r active =
    let end =
      active-Ends urls p http_get loads tc (Involved s i) i s (s.place i) (inl refl)
        (λ j held. inr held) refl active (Reach-IsLocked urls p http_get loads tc w r) in
    (
      end.last,
      end.run,
      Runs-Reach urls p http_get loads tc w (Involved s i) {s = s} {t = end.last} end.run r,
      (end.result, end.ended),
    )
