-- ===== src/Discovery/Tasks/Exclusion.antt =====
-- One request at a time, over every interleaving of the calls.
use mcp_server_auth_template.Base.{
  Bool-cases, Option, ap, arith, eqb, eqb_iff, false, inl, inr, none, refl, some, sym, true, ℕ, ◌∙◌,
  ◌≡◌,
}
use mcp_server_auth_template.Discovery.Tasks.{Place, is_inside, move}
use mathlib.Core.Path.{subst}

-- The lock is held exactly by the call that is inside.
pub record IsLocked (place : ℕ → Place) (lock : Option ℕ) : Type 0 where
  pub held : (i : ℕ) → is_inside (place i) ≡ true → lock ≡ some i
  pub owned : (i : ℕ) → lock ≡ some i → is_inside (place i) ≡ true

eqb-true : (i j : ℕ) → eqb i j ≡ true → i ≡ j
eqb-true i j h = (eqb_iff i j).0 h

eqb_self : (i : ℕ) → eqb i i ≡ true
eqb_self i = (eqb_iff i i).1 refl

pub some_inj : {i j : ℕ} → some i ≡ some j → i ≡ j
some_inj h = ground arith

module _ (place : ℕ → Place) (i : ℕ) (q : Place) where
  -- A call that stays outside changes nothing about the lock.
  pub IsLocked-outside :
      (lock : Option ℕ)
      → is_inside (place i) ≡ false
      → is_inside q ≡ false
      → IsLocked place lock
      → IsLocked (move i q place) lock
  IsLocked-outside lock out still_out h = record {
    held = λ j m. elim (Bool-cases (eqb i j)) [
      | inl same ↦ cc (rw same at m)
      | inr other ↦ h.held j (rw other at m)
    ];
    owned = λ j e. elim (Bool-cases (eqb i j)) [
      | inl same ↦
          let inside : is_inside (place i) ≡ true =
            subst (λ k. is_inside (place k) ≡ true) (sym (eqb-true i j same)) (h.owned j e) in
          cc (inside, out)
      | inr other ↦ rw other (h.owned j e)
    ];
  }

  pub IsLocked-taken : is_inside q ≡ true → IsLocked place none → IsLocked (move i q place) (some i)
  IsLocked-taken inside h = record {
    held = λ j m. elim (Bool-cases (eqb i j)) [
      | inl same ↦ ap some (eqb-true i j same)
      | inr other ↦ cc (h.held j (rw other at m))
    ];
    owned = λ j e.
        let same : eqb i j ≡ true = subst (λ k. eqb i k ≡ true) (some_inj e) (eqb_self i) in
        rw same inside;
  }

  pub IsLocked-inside :
      (lock : Option ℕ)
      → is_inside (place i) ≡ true
      → is_inside q ≡ true
      → IsLocked place lock
      → IsLocked (move i q place) lock
  IsLocked-inside lock inside still h = record {
    held = λ j m. elim (Bool-cases (eqb i j)) [
      | inl same ↦ h.held i inside ∙ ap some (eqb-true i j same)
      | inr other ↦ h.held j (rw other at m)
    ];
    owned = λ j e. elim (Bool-cases (eqb i j)) [
      | inl same ↦ rw same still
      | inr other ↦ rw other (h.owned j e)
    ];
  }

  pub IsLocked-released :
      (lock : Option ℕ)
      → is_inside (place i) ≡ true
      → is_inside q ≡ false
      → IsLocked place lock
      → IsLocked (move i q place) none
  IsLocked-released lock inside out h = record {
    held = λ j m. elim (Bool-cases (eqb i j)) [
      | inl same ↦ cc (rw same at m)
      | inr other ↦
          let mine : some i ≡ some j = sym (h.held i inside) ∙ h.held j (rw other at m) in
          let same : eqb i j ≡ true = subst (λ k. eqb i k ≡ true) (some_inj mine) (eqb_self i) in
          cc (same, other)
    ];
    owned = λ j e. cc;
  }
