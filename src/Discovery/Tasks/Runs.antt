-- ===== src/Discovery/Tasks/Runs.antt =====
-- What holds of every run of concurrent calls.
use mcp_server_auth_template.Base.{
  Bool-cases, Option, String, ap, arith, eqb, eqb_iff, false, inl, inr, none, refl, some, sym, true,
  ℕ, ◌∙◌, ◌≡◌,
}
use mcp_server_auth_template.Base.Result.{ok}
use mcp_server_auth_template.Base.Value.{Value}
use mcp_server_auth_template.Discovery.{Discovered, OidcMetadata, fetch}
use mcp_server_auth_template.Discovery.Laws.{
  IsSoundCache, IsTrustedMetadata, fetch-Believes, remember_metadata-Leaves,
}
use mcp_server_auth_template.Discovery.Tasks.{
  Calls, starting, Place, after_fetch, after_read, after_recheck, cancel_at, cancelled, fetching,
  finished, is_inside, move, rechecking, resume_at, take_lock, waiting,
}
use mcp_server_auth_template.Discovery.Tasks.Exclusion.{
  IsLocked, IsLocked-inside, IsLocked-outside, IsLocked-released, IsLocked-taken, some_inj,
}
use mcp_server_auth_template.Http.{Bytes}
use mcp_server_auth_template.Jwks.{TtlCache}
use mcp_server_auth_template.Jwks.Resolver.{HttpResponse}
use mcp_server_auth_template.OidcNetwork.{Policy, Urls}
use mathlib.Core.Path.{subst}

pub some_path {ℓ} : {A : Type ℓ} {a b : A} → some a ≡ some b → a ≡ b
some_path h = ground arith

module _ {W Address : Type 0} (urls : Urls Address) (p : Policy)
    (http_get : String → W → Option HttpResponse × W) (loads : Bytes → Option Value)
    (tc : TtlCache OidcMetadata) where
  abbrev issuer : String
  issuer = p.config.issuer_url

  -- Metadata that a call ends with is trusted.
  abbrev pub Believed : (ℕ → Place) → Type 0
  Believed place =
      (i : ℕ) (m : OidcMetadata) → place i ≡ finished (ok m) → IsTrustedMetadata urls p m

  -- A call requests the document only while the cache yields nothing.
  abbrev pub Needed : (ℕ → Place) → ℕ → tc.Cache → Type 0
  Needed place now cache =
      (i : ℕ) → place i ≡ fetching → tc.cached p.config.issuer_url now cache ≡ none

  pub record IsOrderly (s : Calls W tc) : Type 0 where
    pub locked : IsLocked s.place s.lock
    pub sound : IsSoundCache urls p http_get loads tc s.cache
    pub believed : Believed s.place
    pub needed : Needed s.place s.now s.cache

  Believed-move :
      (place : ℕ → Place) (i : ℕ) (q : Place)
      → ((m : OidcMetadata) → q ≡ finished (ok m) → IsTrustedMetadata urls p m)
      → Believed place
      → Believed (move i q place)
  Believed-move place i q trusted h j m e = elim (Bool-cases (eqb i j)) [
    | inl same ↦ trusted m (rw same at e)
    | inr other ↦ h j m (rw other at e)
  ]

  Needed-move :
      (place : ℕ → Place) (i : ℕ) (q : Place) (now : ℕ) (cache : tc.Cache)
      → (q ≡ fetching → tc.cached issuer now cache ≡ none)
      → Needed place now cache
      → Needed (move i q place) now cache
  Needed-move place i q now cache asks h j e = elim (Bool-cases (eqb i j)) [
    | inl same ↦ asks (rw same at e)
    | inr other ↦ h j (rw other at e)
  ]

  after_read-IsOrderly :
      (i : ℕ) (s : Calls W tc) (o : Option OidcMetadata)
      → is_inside (s.place i) ≡ false
      → tc.cached issuer s.now s.cache ≡ o
      → IsOrderly s
      → IsOrderly (after_read urls p http_get loads tc i s o)
  after_read-IsOrderly i s (some n) out e h = record {
    locked = IsLocked-outside s.place i (finished (ok n)) s.lock out refl h.locked;
    sound = h.sound;
    believed =
        Believed-move s.place i (finished (ok n))
          (λ m same. h.sound issuer s.now m (e ∙ ap some (ground arith))) h.believed;
    needed = Needed-move s.place i (finished (ok n)) s.now s.cache (λ q. cc) h.needed;
  }
  after_read-IsOrderly i s none out e h = record {
    locked = IsLocked-outside s.place i waiting s.lock out refl h.locked;
    sound = h.sound;
    believed = Believed-move s.place i waiting (λ m q. cc) h.believed;
    needed = Needed-move s.place i waiting s.now s.cache (λ q. cc) h.needed;
  }

  after_recheck-IsOrderly :
      (i : ℕ) (s : Calls W tc) (o : Option OidcMetadata)
      → is_inside (s.place i) ≡ true
      → tc.cached issuer s.now s.cache ≡ o
      → IsOrderly s
      → IsOrderly (after_recheck urls p http_get loads tc i s o)
  after_recheck-IsOrderly i s (some n) inside e h = record {
    locked = IsLocked-released s.place i (finished (ok n)) s.lock inside refl h.locked;
    sound = h.sound;
    believed =
        Believed-move s.place i (finished (ok n))
          (λ m same. h.sound issuer s.now m (e ∙ ap some (ground arith))) h.believed;
    needed = Needed-move s.place i (finished (ok n)) s.now s.cache (λ q. cc) h.needed;
  }
  after_recheck-IsOrderly i s none inside e h = record {
    locked = IsLocked-inside s.place i fetching s.lock inside refl h.locked;
    sound = h.sound;
    believed = Believed-move s.place i fetching (λ m q. cc) h.believed;
    needed = Needed-move s.place i fetching s.now s.cache (λ q. e) h.needed;
  }

  -- While a call is inside, no other call requests.
  pub alone :
      (place : ℕ → Place) (lock : Option ℕ) (i j : ℕ)
      → IsLocked place lock
      → is_inside (place i) ≡ true
      → place j ≡ fetching
      → i ≡ j
  alone place lock i j h inside e = some_inj (sym (h.held i inside) ∙ h.held j (ap is_inside e))

  after_fetch-IsOrderly :
      (i : ℕ) (s : Calls W tc) (d : Discovered urls p http_get loads tc)
      → is_inside (s.place i) ≡ true
      → IsSoundCache urls p http_get loads tc d.1
      → ((m : OidcMetadata) → d.0 ≡ ok m → IsTrustedMetadata urls p m)
      → IsOrderly s
      → IsOrderly (after_fetch urls p http_get loads tc i s d)
  after_fetch-IsOrderly i s (result, cache, w) inside sound believes h = record {
    locked = IsLocked-released s.place i (finished result) s.lock inside refl h.locked;
    sound = sound;
    believed =
        Believed-move s.place i (finished result) (λ m q. believes m (ground arith)) h.believed;
    needed = λ j e. elim (Bool-cases (eqb i j)) [
      | inl same ↦ cc (rw same at e)
      | inr other ↦
          let mine = alone s.place s.lock i j h.locked inside (rw other at e) in
          let same : eqb i j ≡ true = (eqb_iff i j).1 mine in cc (same, other)
    ];
  }

  take_lock-IsOrderly :
      (i : ℕ) (s t : Calls W tc) (lock : Option ℕ)
      → s.lock ≡ lock
      → take_lock urls p http_get loads tc i s lock ≡ some t
      → IsOrderly s
      → IsOrderly t
  take_lock-IsOrderly i s t (some holder) e r h = cc
  take_lock-IsOrderly i s t none e r h = subst IsOrderly (some_path r) (record {
    locked = IsLocked-taken s.place i rechecking refl (subst (IsLocked s.place) e h.locked);
    sound = h.sound;
    believed = Believed-move s.place i rechecking (λ m q. cc) h.believed;
    needed = Needed-move s.place i rechecking s.now s.cache (λ q. cc) h.needed;
  })

  pub resume_at-IsOrderly :
      (i : ℕ) (s t : Calls W tc) (q : Place)
      → s.place i ≡ q
      → resume_at urls p http_get loads tc i s q ≡ some t
      → IsOrderly s
      → IsOrderly t
  resume_at-IsOrderly i s t starting e r h =
      subst IsOrderly (some_path r)
        (after_read-IsOrderly i s (tc.cached issuer s.now s.cache) (ap is_inside e) refl h)
  resume_at-IsOrderly i s t waiting e r h = take_lock-IsOrderly i s t s.lock refl r h
  resume_at-IsOrderly i s t rechecking e r h =
      subst IsOrderly (some_path r)
        (after_recheck-IsOrderly i s (tc.cached issuer s.now s.cache) (ap is_inside e) refl h)
  resume_at-IsOrderly i s t fetching e r h =
      let (sound, believes) =
        remember_metadata-Leaves urls p http_get loads tc issuer s.now s.cache
          (fetch urls p http_get loads tc s.world) h.sound
          (fetch-Believes urls p http_get loads tc s.world) in
      subst IsOrderly (some_path r) (after_fetch-IsOrderly i s _ (ap is_inside e) sound believes h)
  resume_at-IsOrderly i s t cancelled e r h = cc
  resume_at-IsOrderly i s t (finished result) e r h = cc

  outside-IsOrderly :
      (i : ℕ) (s : Calls W tc)
      → is_inside (s.place i) ≡ false
      → IsOrderly s
      → IsOrderly (record s { place = move i cancelled s.place })
  outside-IsOrderly i s out h = record {
    locked = IsLocked-outside s.place i cancelled s.lock out refl h.locked;
    sound = h.sound;
    believed = Believed-move s.place i cancelled (λ m q. cc) h.believed;
    needed = Needed-move s.place i cancelled s.now s.cache (λ q. cc) h.needed;
  }

  inside-IsOrderly :
      (i : ℕ) (s : Calls W tc)
      → is_inside (s.place i) ≡ true
      → IsOrderly s
      → IsOrderly (record s { place = move i cancelled s.place; lock = none })
  inside-IsOrderly i s inside h = record {
    locked = IsLocked-released s.place i cancelled s.lock inside refl h.locked;
    sound = h.sound;
    believed = Believed-move s.place i cancelled (λ m q. cc) h.believed;
    needed = Needed-move s.place i cancelled s.now s.cache (λ q. cc) h.needed;
  }

  pub cancel_at-IsOrderly :
      (i : ℕ) (s t : Calls W tc) (q : Place)
      → s.place i ≡ q
      → cancel_at urls p http_get loads tc i s q ≡ some t
      → IsOrderly s
      → IsOrderly t
  cancel_at-IsOrderly i s t starting e r h =
      subst IsOrderly (some_path r) (outside-IsOrderly i s (ap is_inside e) h)
  cancel_at-IsOrderly i s t waiting e r h =
      subst IsOrderly (some_path r) (outside-IsOrderly i s (ap is_inside e) h)
  cancel_at-IsOrderly i s t rechecking e r h =
      subst IsOrderly (some_path r) (inside-IsOrderly i s (ap is_inside e) h)
  cancel_at-IsOrderly i s t fetching e r h =
      subst IsOrderly (some_path r) (inside-IsOrderly i s (ap is_inside e) h)
  cancel_at-IsOrderly i s t cancelled e r h = cc
  cancel_at-IsOrderly i s t (finished result) e r h = cc
