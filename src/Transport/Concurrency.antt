-- ===== src/Transport/Concurrency.antt =====
-- The count of requests in flight, over every interleaving of arrivals and departures.
use mcp_server_auth_template.Base.{
  not, ◌&&◌, ◌==◌, ◌≢◌, ℕ, ◌+◌, ◌-◌, ◌≤◌, Bool, Option, none, some, List, [], ◌∷◌, ◌++◌, length,
  length-append, leb, ◌≡◌, refl, arith, Bool-cases, inl, inr,
}
use mcp_server_auth_template.Http.{lifespan, websocket, http, ScopeType, Scope, Response}
use mcp_server_auth_template.Transport.{
  contains, after_envelope, after_host_check, admit_slot, Rejection, Limits, Admission, bypass,
  admitted, refused, admit, try_admit, release,
}

-- The counter of the middleware, and the requests that hold a slot (by a number each), which only
-- the proof keeps track of.
pub record World : Type 0 where
  pub in_flight : ℕ
  pub running : List ℕ

abbrev pub start : World
start = record { in_flight = 0; running = [] }

abbrev pub hold : ℕ → Admission → List ℕ → List ℕ
hold id admitted running = id ∷ running
hold id _ running = running

module _ (limits : Limits) (sdk_check : Scope → Bool → Option Response) where
  abbrev pub arrive : ℕ → Scope → World → World
  arrive id scope w =
      let (a, n) = admit limits sdk_check scope w.in_flight in
      record { in_flight = n; running = hold id a w.running }

  -- A request arrives, or one that holds a slot returns or raises: the `finally` releases the slot
  -- either way.
  pub data Step : World → World → Type 0 where
    arrives : (id : ℕ) (scope : Scope) (w : World) → Step w (arrive id scope w)
    departs :
        (id : ℕ) (before after : List ℕ) (n : ℕ)
        → Step
            (record { in_flight = n; running = before ++ id ∷ after })
            (record { in_flight = release n; running = before ++ after })

  pub data Reach : World → Type 0 where
    here : Reach start
    next : {v w : World} → Reach v → Step v w → Reach w

  pub record IsCounted (w : World) : Type 0 where
    pub exact : w.in_flight ≡ length w.running
    pub bounded : w.in_flight ≤ limits.max_concurrent_requests

  -- An admitted request takes one slot, any other none; and the limit is kept.
  record Admits (n : ℕ) (outcome : Admission × ℕ) : Type 0 where
    taken :
        (id : ℕ) (running : List ℕ)
        → outcome.1 + length running ≡ n + length (hold id outcome.0 running)
    kept : n ≤ limits.max_concurrent_requests → outcome.1 ≤ limits.max_concurrent_requests

  Admits-same : (n : ℕ) (a : Admission) → a ≢ admitted → Admits n (a, n)
  Admits-same n bypass h = record { taken = λ id running. refl; kept = λ h. h }
  Admits-same n (refused r es) h = record { taken = λ id running. refl; kept = λ h. h }
  Admits-same n admitted h = absurd (h refl)

  admit_slot-Admits : (n : ℕ) → Admits n (admit_slot limits sdk_check n)
  unfolding try_admit
  admit_slot-Admits n = elim (Bool-cases (leb limits.max_concurrent_requests n)) [
    | inl full ↦ rw full (Admits-same n _ (λ e. cc))
    | inr room ↦ rw room (record { taken = λ id running. omega arith; kept = λ h. ground arith })
  ]

  after_host_check-Admits :
      (scope : Scope) (answer : Option Response) (n : ℕ)
      → Admits n (after_host_check limits sdk_check scope answer n)
  after_host_check-Admits scope (some r) n = Admits-same n _ (λ e. cc)
  after_host_check-Admits scope none n =
      elim (Bool-cases (scope.path == limits.mcp_path && not (scope.method == "POST"))) [
        | inl e ↦ rw e (Admits-same n _ (λ e. cc))
        | inr e ↦ rw e (admit_slot-Admits n)
      ]

  after_envelope-Admits :
      (scope : Scope) (answer : Option Rejection) (n : ℕ)
      → Admits n (after_envelope limits sdk_check scope answer n)
  after_envelope-Admits scope (some r) n = Admits-same n _ (λ e. cc)
  after_envelope-Admits scope none n =
      elim (Bool-cases (contains scope.path limits.operational_paths)) [
        | inl e ↦ rw e (Admits-same n bypass (λ e. cc))
        | inr e ↦ rw e (after_host_check-Admits scope _ n)
      ]

  admit_by_type-Admits :
      (scope : Scope) (type : ScopeType) (n : ℕ)
      → scope.type ≡ type
      → Admits n (admit limits sdk_check scope n)
  unfolding admit
  admit_by_type-Admits scope http n e = rw (e, admit) (after_envelope-Admits scope _ n)
  admit_by_type-Admits scope websocket n e = rw (e, admit) (Admits-same n bypass (λ e. cc))
  admit_by_type-Admits scope lifespan n e = rw (e, admit) (Admits-same n bypass (λ e. cc))

  arrive-IsCounted :
      (id : ℕ) (scope : Scope) (w : World) → IsCounted w → IsCounted (arrive id scope w)
  arrive-IsCounted id scope w h =
      let a = admit_by_type-Admits scope scope.type w.in_flight refl in
      record { exact = omega (arith, a.taken id w.running, h.exact); bounded = a.kept h.bounded }

  Step-IsCounted : {v w : World} → Step v w → IsCounted v → IsCounted w
  unfolding release
  Step-IsCounted (arrives id scope w) h = arrive-IsCounted id scope w h
  Step-IsCounted (departs id before after n) h = record {
    exact = omega (arith, h.exact, length-append before (id ∷ after), length-append before after);
    bounded = omega (arith, h.bounded);
  }

  Reach-IsCounted : {w : World} → Reach w → IsCounted w
  Reach-IsCounted here = record { exact = refl; bounded = omega arith }
  Reach-IsCounted (next r s) = Step-IsCounted s (Reach-IsCounted r)

-- After any interleaving of arriving and departing requests, the counter is the number of requests
-- that hold a slot, at most the configured limit; and a request that holds one finds the counter
-- above 0 when it leaves, so the release never passes below 0.
pub Reach-counted :
    (limits : Limits) (sdk_check : Scope → Bool → Option Response) (w : World)
    → Reach limits sdk_check w
    → (w.in_flight ≡ length w.running)
      × (w.in_flight ≤ limits.max_concurrent_requests)
      × (w.running ≢ [] → release w.in_flight + 1 ≡ w.in_flight)
unfolding release
Reach-counted limits sdk_check w r =
    let c = Reach-IsCounted limits sdk_check r in
    (c.exact, c.bounded, λ some_running. held w.running c.exact some_running)
  where
    held :
        (running : List ℕ)
        → w.in_flight ≡ length running
        → running ≢ []
        → w.in_flight - 1 + 1 ≡ w.in_flight
    held [] e h = absurd (h refl)
    held (id ∷ running) e h = omega arith
