-- ===== src/OidcNetwork/Bodies.antt =====
-- How much of a response's body is let through.
use mcp_server_auth_template.Base.Text
use mcp_server_auth_template.Base.{
  Bool-cases, List, [], ap, arith, false, inl, inr, ltb, refl, true, ℕ, ◌++◌, ◌+◌, ◌<◌, ◌↔◌, ◌∷◌,
  ◌≡◌, ◌≤◌,
}
use mcp_server_auth_template.Http.{Bytes}
use mcp_server_auth_template.OidcNetwork.{bounded_chunks}

-- The bytes of all chunks.
abbrev pub size : List Bytes → ℕ
size [] = 0
size (chunk ∷ chunks) = Text.length chunk + size chunks

module _ (limit : ℕ) where
  size-bounded_chunks-le :
      (total : ℕ) (chunks : List Bytes)
      → total ≤ limit
      → total + size (bounded_chunks limit total chunks).0 ≤ limit
  unfolding bounded_chunks
  size-bounded_chunks-le total [] h = omega (arith, h)
  size-bounded_chunks-le total (chunk ∷ chunks) h =
      elim (Bool-cases (ltb limit (total + Text.length chunk))) [
        | inl over ↦ rw over (omega (arith, h))
        | inr fits ↦
            let below : total + Text.length chunk ≤ limit = ground arith in
            rw fits (omega (arith, size-bounded_chunks-le (total + Text.length chunk) chunks below))
      ]

  bounded_chunks-raises :
      (total : ℕ) (chunks : List Bytes)
      → total ≤ limit
      → ((bounded_chunks limit total chunks).1 ≡ true) ↔ (limit < total + size chunks)
  unfolding bounded_chunks
  bounded_chunks-raises total [] h = ground (arith, h)
  bounded_chunks-raises total (chunk ∷ chunks) h =
      elim (Bool-cases (ltb limit (total + Text.length chunk))) [
        | inl over ↦ rw over (λ e. ground arith, λ e. refl)
        | inr fits ↦
            let (to, from) =
              bounded_chunks-raises (total + Text.length chunk) chunks (ground arith) in
            rw fits (λ e. omega (arith, to e), λ e. from (omega (arith, e)))
      ]

  bounded_chunks-prefix :
      (total : ℕ) (chunks : List Bytes)
      → (rest : List Bytes) × ((bounded_chunks limit total chunks).0 ++ rest ≡ chunks)
  unfolding bounded_chunks
  bounded_chunks-prefix total [] = ([], refl)
  bounded_chunks-prefix total (chunk ∷ chunks) =
      elim (Bool-cases (ltb limit (total + Text.length chunk))) [
        | inl over ↦ rw over (chunk ∷ chunks, refl)
        | inr fits ↦
            let (rest, same) = bounded_chunks-prefix (total + Text.length chunk) chunks in
            rw fits (rest, ap (λ cs. chunk ∷ cs) same)
      ]

  bounded_chunks-all :
      (total : ℕ) (chunks : List Bytes)
      → (bounded_chunks limit total chunks).1 ≡ false
      → (bounded_chunks limit total chunks).0 ≡ chunks
  unfolding bounded_chunks
  bounded_chunks-all total [] h = refl
  bounded_chunks-all total (chunk ∷ chunks) h =
      elim (Bool-cases (ltb limit (total + Text.length chunk))) [
        | inl over ↦ cc (rw over at h)
        | inr fits ↦ rw fits (
            ap (λ cs. chunk ∷ cs)
              (bounded_chunks-all (total + Text.length chunk) chunks (rw fits at h)))
      ]

-- Of a body that arrives in chunks, at most the limit is let through, as a prefix of the chunks;
-- the read raises exactly if the body is longer than the limit, and lets all of it through if not.
pub bounded_chunks_lem :
    (limit : ℕ) (chunks : List Bytes)
    → (size (bounded_chunks limit 0 chunks).0 ≤ limit)
      × ((rest : List Bytes) × ((bounded_chunks limit 0 chunks).0 ++ rest ≡ chunks))
      × (((bounded_chunks limit 0 chunks).1 ≡ true) ↔ (limit < size chunks))
      × ((bounded_chunks limit 0 chunks).1 ≡ false → (bounded_chunks limit 0 chunks).0 ≡ chunks)
bounded_chunks_lem limit chunks = (
  omega (arith, size-bounded_chunks-le limit 0 chunks),
  bounded_chunks-prefix limit 0 chunks,
  (
    λ e. omega (arith, (bounded_chunks-raises limit 0 chunks (omega arith)).0 e),
    λ over. (bounded_chunks-raises limit 0 chunks (omega arith)).1 (omega (arith, over)),
  ),
  bounded_chunks-all limit 0 chunks,
)
