-- ===== src/Audit/Tamper.antt =====
-- What a checkpoint of src/governance/audit.py pins down. Nothing is assumed of the hash: two
-- histories that differ under one checkpoint exhibit a collision.
use agentbridge.Base.{
  leb, ℕ, suc, String, ◌≡◌, ◌≢◌, ◌⊎◌, refl, true, List, [], ◌∷◌, ◌==◌, nat_eq, string_eq, arith,
  inl, inr, sym, Bool-cases, ◌∙◌,
}
use agentbridge.Store.{AuditPayload, AuditEntry}
use agentbridge.Audit.Table.{genesis, head_of, next_seq, next_prev}
use agentbridge.Audit.Log.{check_sorted, put_by_seq, by_seq, verify_chain}
use agentbridge.Audit.Links.{
  Linked, check_links-Linked, head_of-ends, end_seq, end_seq-ge, end_hash,
}
use mathlib.Core.Path.{subst}
use text.Mathlib.TextEquality.{eq_iff}
use native.Mathlib.Decide.{ℕ_discrete}

String-discrete : Discrete String
String-discrete a b = elim (Bool-cases (a == b)) [
  | inl e ↦ yes ((eq_iff a b).0 e)
  | inr e ↦ no (λ p. ground (arith, eq_iff a b))
]

AuditPayload-discrete : Discrete AuditPayload
AuditPayload-discrete = hlevel (ℕ_discrete, String-discrete)

-- Some entry of the list has the payload.
abbrev pub Holds : AuditPayload → List AuditEntry → Type 0
Holds p [] = ⊥
Holds p (e ∷ es) = (e.payload ≡ p) ⊎ Holds p es

-- Two payloads with one digest, one held by each list.
abbrev pub Collision : (AuditPayload → String) → List AuditEntry → List AuditEntry → Type 0
Collision hash es fs =
    (p : AuditPayload) × (q : AuditPayload) × (p ≢ q) × (hash p ≡ hash q) × Holds p es × Holds q fs

Holds-put_by_seq :
    (p : AuditPayload) (a : AuditEntry) (es : List AuditEntry)
    → Holds p (put_by_seq a es)
    → (a.payload ≡ p) ⊎ Holds p es
unfolding put_by_seq
Holds-put_by_seq p a [] h = h
Holds-put_by_seq p a (b ∷ es) h = elim (Bool-cases (leb a.seq b.seq)) [
  | inl e ↦ ground (arith, e, h)
  | inr e ↦ ground (arith, e, h, Holds-put_by_seq p a es)
]

-- Sorting a list adds no payload.
Holds-by_seq : (p : AuditPayload) (es : List AuditEntry) → Holds p (by_seq es) → Holds p es
unfolding by_seq
Holds-by_seq p [] h = h
Holds-by_seq p (e ∷ es) h = elim (Holds-put_by_seq p e (by_seq es) h) [
  | inl here ↦ inl here
  | inr later ↦ inr (Holds-by_seq p es later)
]

module _ (hash : AuditPayload → String) where
  -- Linked lists of one length that end in one hash are one list, behind one hash.
  Linked-unique :
      (n : ℕ) (prev : String) (es : List AuditEntry) (prev' : String) (fs : List AuditEntry)
      → Linked hash n prev es
      → Linked hash n prev' fs
      → end_seq hash n es ≡ end_seq hash n fs
      → end_hash hash prev es ≡ end_hash hash prev' fs
      → ((es ≡ fs) × (prev ≡ prev')) ⊎ Collision hash es fs
  Linked-unique n prev [] prev' [] h k c d = inl (refl, d)
  Linked-unique n prev [] prev' (f ∷ fs) h k c d =
      absurd (omega (arith, end_seq-ge hash (suc n) fs))
  Linked-unique n prev (e ∷ es) prev' [] h k c d =
      absurd (omega (arith, end_seq-ge hash (suc n) es))
  Linked-unique n prev (e ∷ es) prev' (f ∷ fs) h k c d =
      elim (Linked-unique (suc n) e.entry_hash es f.entry_hash fs h.3 k.3 c d) [
        | inr (p, q, differ, same, at_p, at_q) ↦ inr (p, q, differ, same, inr at_p, inr at_q)
        | inl same ↦ elim (AuditPayload-discrete e.payload f.payload) [
          | yes p ↦ inl (ground (arith, p, same.0, same.1))
          | no differ ↦
              inr (e.payload, f.payload, differ, h.2 ∙ same.1 ∙ sym k.2, inl refl, inl refl)
        ]
      ]

  verified_Linked :
      (es : List AuditEntry) → check_sorted hash true es ≡ true → Linked hash 0 genesis es
  unfolding check_sorted
  verified_Linked [] h = tt
  verified_Linked (e ∷ es) h =
      let z : e.seq ≡ 0 = ground (arith, eq_iff e.prev_hash genesis) in
      let g : e.prev_hash ≡ genesis = ground (arith, eq_iff e.prev_hash genesis) in
      let l =
        check_links-Linked hash e.seq e.prev_hash (e ∷ es)
          (ground (arith, eq_iff e.prev_hash genesis)) in
      (z, g, l.2, subst (λ n. Linked hash (suc n) e.entry_hash es) z l.3)

  ends_of :
      (es : List AuditEntry)
      → Linked hash 0 genesis es
      → (next_seq (head_of es) ≡ end_seq hash 0 es)
        × (next_prev (head_of es) ≡ end_hash hash genesis es)
  ends_of [] h = (refl, refl)
  ends_of (e ∷ es) h = head_of-ends hash 0 genesis e es h

  -- Two histories that verify from genesis and have the same number of entries and the same head
  -- hash are the same history, up to the order in which the records were listed, unless a
  -- payload of the one and another of the other collide under the hash. So one cannot edit, drop, add or reorder entries
  -- below a checkpoint, and have `verify_chain` accept the result, without a collision.
  pub verify_chain-head :
      (es fs : List AuditEntry)
      → verify_chain hash es true ≡ true
      → verify_chain hash fs true ≡ true
      → next_seq (head_of (by_seq es)) ≡ next_seq (head_of (by_seq fs))
      → next_prev (head_of (by_seq es)) ≡ next_prev (head_of (by_seq fs))
      → (by_seq es ≡ by_seq fs) ⊎ Collision hash es fs
  unfolding verify_chain
  verify_chain-head es fs h k c d =
      let le = verified_Linked (by_seq es) h in
      let lf = verified_Linked (by_seq fs) k in
      elim (Linked-unique 0 genesis (by_seq es) genesis (by_seq fs) le lf
        (sym (ends_of (by_seq es) le).0 ∙ c ∙ (ends_of (by_seq fs) lf).0)
        (sym (ends_of (by_seq es) le).1 ∙ d ∙ (ends_of (by_seq fs) lf).1)) [
          | inl same ↦ inl same.0
          | inr (p, q, differ, same, at_p, at_q) ↦
              inr (p, q, differ, same, Holds-by_seq p es at_p, Holds-by_seq q fs at_q)
        ]
