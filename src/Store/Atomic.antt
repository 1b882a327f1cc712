-- ===== src/Store/Atomic.antt =====
-- `sql_atomic` of src/governance/store.py: what a block that raises leaves behind.
use agentbridge.Base.{◌≡◌, ◌⊎◌, inl, inr, refl, arith}
use agentbridge.Store.Rows.{Db, World}
use agentbridge.Store.Exec.{Exec, Error, Result, ok, err, sql_atomic, rolled_back, continue, ◌>>=◌}

-- A block that raises leaves every table as it was before the block.
pub sql_atomic_rollback {ℓ} :
    {A : Type ℓ} (m : Exec A) (w : World) (e : Error)
    → (sql_atomic m w).0 ≡ err e
    → (sql_atomic m w).1.db ≡ w.db
sql_atomic_rollback {A} m w e h = go (m w) h
  where
    go : (r : Result A × World) → (rolled_back w.db r).0 ≡ err e → (rolled_back w.db r).1.db ≡ w.db
    go (ok a, w') h = cc
    go (err e', w') h = refl

-- A block that commits is the block.
pub sql_atomic-ok {ℓ} :
    {A : Type ℓ} (m : Exec A) (w : World) (a : A)
    → (sql_atomic m w).0 ≡ ok a
    → ((m w).0 ≡ ok a) × (sql_atomic m w ≡ m w)
sql_atomic-ok {A} m w a h = go (m w) h
  where
    go :
        (r : Result A × World)
        → (rolled_back w.db r).0 ≡ ok a
        → (r.0 ≡ ok a) × (rolled_back w.db r ≡ r)
    go (ok a', w') h = (h, refl)
    go (err e', w') h = cc

pub sql_atomic-commits {ℓ} :
    {A : Type ℓ} (m : Exec A) (w : World) (a : A) → (m w).0 ≡ ok a → (sql_atomic m w).0 ≡ ok a
sql_atomic-commits {A} m w a h = go (m w) h
  where
    go : (r : Result A × World) → r.0 ≡ ok a → (rolled_back w.db r).0 ≡ ok a
    go (ok a', w') h = h
    go (err e', w') h = h

-- A chain that returns: its first part returned, and the rest ran on what it left.
pub bind-ok {ℓ κ} :
    {A : Type ℓ} {B : Type κ} (m : Exec A) (k : A → Exec B) (w : World) (b : B)
    → ((m >>= k) w).0 ≡ ok b
    → (a : A) × ((m w).0 ≡ ok a) × ((m >>= k) w ≡ k a (m w).1)
bind-ok {A = A} {B = B} m k w b h = go (m w) h
  where
    go :
        (r : Result A × World)
        → (continue r k).0 ≡ ok b
        → (a : A) × (r.0 ≡ ok a) × (continue r k ≡ k a r.1)
    go (ok a, w') h = (a, refl, refl)
    go (err e, w') h = absurd (ground arith)

-- A chain that raises: its first part raised, or returned and the rest raised.
pub bind-err {ℓ κ} :
    {A : Type ℓ} {B : Type κ} (m : Exec A) (k : A → Exec B) (w : World) (e : Error)
    → ((m >>= k) w).0 ≡ err e
    → ((m w).0 ≡ err e) ⊎ ((a : A) × ((m w).0 ≡ ok a) × ((k a (m w).1).0 ≡ err e))
bind-err {A = A} {B = B} m k w e h = go (m w) h
  where
    go :
        (r : Result A × World)
        → (continue r k).0 ≡ err e
        → (r.0 ≡ err e) ⊎ ((a : A) × (r.0 ≡ ok a) × ((k a r.1).0 ≡ err e))
    go (ok a, v) h = inr (a, refl, h)
    go (err x, v) h = inl (ground (arith, h))

pub rolled_back-err {ℓ} :
    {A : Type ℓ} (r : Result A × World) (before : Db) (e : Error)
    → (rolled_back before r).0 ≡ err e
    → r.0 ≡ err e
rolled_back-err (ok a, v) before e h = absurd (ground (arith, h))
rolled_back-err (err x, v) before e h = h
