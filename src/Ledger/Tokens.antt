-- ===== src/Ledger/Tokens.antt =====
-- A budget token belongs to one operation (`attach_reservation` of
-- src/governance/operation_ledger.py).
use agentbridge.Base.{
  String, ◌≡◌, ◌≢◌, true, false, none, some, [], ◌∷◌, arith, string_eq, pair_eq, inl, inr,
}
use agentbridge.Base.Dict.{Dict, lookup, insert, lookup-insert}
use agentbridge.Store.{World}
use agentbridge.Store.Exec.{Result-cases, ok}
use agentbridge.Ledger.Defs.{holds, is_unknown, is_attached, attach_reservation}
use text.Mathlib.TextEquality.{eq_iff}

-- No two operations of an agent are linked to the same token.
pub record OwnsTokens (d : Dict (String × String) String) : Type 0 where
  pub unique : (a o p t : String) → lookup (a, o) d ≡ some t → lookup (a, p) d ≡ some t → o ≡ p

attached_sound :
    (a o t : String) (d : Dict (String × String) String)
    → is_attached a t d ≡ false
    → lookup (a, o) d ≢ some t
unfolding is_attached lookup
attached_sound a o t [] h e = cc
attached_sound a o t (((b, p), u) ∷ d) h e =
    ground (arith, attached_sound a o t d, eq_iff b a, eq_iff u t, eq_iff p o)

insert-OwnsTokens :
    (a o t : String) (d : Dict (String × String) String)
    → is_attached a t d ≡ false
    → OwnsTokens d
    → OwnsTokens (insert (a, o) t d)
insert-OwnsTokens a o t d free own = record {
  unique = λ b p q u hp hq.
      let kp = rw lookup-insert at hp in
      let kq = rw lookup-insert at hq in
      ground (
        arith,
        eq_iff a b,
        eq_iff o p,
        eq_iff o q,
        attached_sound a p t d free,
        attached_sound a q t d free,
        own.unique b p q u,
      );
}

module _ (a o t : String) (w : World) where
  -- What a returned attachment found and wrote.
  pub attach-ok :
      (attach_reservation a o t w).0 ≡ ok tt
      → (is_unknown (lookup (a, o) w.agent_operations) ≡ true)
        × (lookup (a, o) w.operation_reservations ≡ none)
        × (holds t (lookup a w.budgets) ≡ true)
        × (is_attached a t w.operation_reservations ≡ false)
        × ((attach_reservation a o t w).1 ≡ record w {
          db = record w.db { operation_reservations = insert (a, o) t w.operation_reservations };
        })
  unfolding attach_reservation
  attach-ok h = ground arith

  attach-err : (attach_reservation a o t w).0 ≢ ok tt → (attach_reservation a o t w).1.db ≡ w.db
  unfolding attach_reservation
  attach-err h = ground arith

  -- Attaching keeps every token with at most one operation of its agent, whether it returns or
  -- raises.
  pub attach-OwnsTokens :
      OwnsTokens w.operation_reservations
      → OwnsTokens (attach_reservation a o t w).1.operation_reservations
  attach-OwnsTokens h = elim (Result-cases (attach_reservation a o t w).0) [
    | inl (u, e) ↦
        rw ((attach-ok e).4) (insert-OwnsTokens a o t w.operation_reservations (attach-ok e).3 h)
    | inr (x, e) ↦ rw (attach-err (λ q. cc)) h
  ]
