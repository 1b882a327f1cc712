-- ===== src/Base/Dict.antt =====
-- Python's `dict` and a SQL table with a primary key: an association list in insertion order.
use mathlib.Core.Path.{◌≡◌, refl, subst}
use mathlib.Core.Bool.{Bool, true, false}
use mathlib.Core.Option.{Option, none, some, some-injective}
use mathlib.Core.List.{List, [], ◌∷◌}
use native.Mathlib.Omega.{arith}
use agentbridge.Base.Tests.{Eq, ◌==◌, if◌then◌else◌, is_some}
use agentbridge.Base.Lists.{All}

abbrev pub Dict {ℓ} : Type 0 → Type ℓ → Type ℓ
Dict K V = List (K × V)

module _ {ℓ} {K : Type 0} {V : Type ℓ} ⦃e : Eq K⦄ where
  -- `d.get(k)`
  unfoldable pub lookup : K → Dict K V → Option V
  lookup k [] = none
  lookup k ((j, v) ∷ d) = if j == k then some v else lookup k d

  -- `d[k] = v`: a known key keeps its place
  unfoldable pub insert : K → V → Dict K V → Dict K V
  insert k v [] = (k, v) ∷ []
  insert k v ((j, w) ∷ d) = if j == k then (j, v) ∷ d else (j, w) ∷ insert k v d

  -- `d.pop(k, None)`
  unfoldable pub remove : K → Dict K V → Dict K V
  remove k [] = []
  remove k ((j, w) ∷ d) = let rest = remove k d in if j == k then rest else (j, w) ∷ rest

  -- `k in d`
  abbrev pub has : K → Dict K V → Bool
  has k d = is_some (lookup k d)

  pub lookup-insert :
      (k j : K) (v : V) (d : Dict K V)
      → lookup j (insert k v d) ≡ (if k == j then some v else lookup j d)
  unfolding lookup insert
  lookup-insert k j v [] = refl
  lookup-insert k j v ((i, w) ∷ d) =
      ground (arith, e.beq_iff k j, e.beq_iff i k, e.beq_iff i j, lookup-insert k j v d)

  pub lookup-insert_same : (k : K) (v : V) (d : Dict K V) → lookup k (insert k v d) ≡ some v
  lookup-insert_same k v d = let seen = lookup-insert k k v d in ground (arith, e.beq_iff k k)

  pub lookup-remove :
      (k j : K) (d : Dict K V) → lookup j (remove k d) ≡ (if k == j then none else lookup j d)
  unfolding lookup remove
  lookup-remove k j [] = ground arith
  lookup-remove k j ((i, w) ∷ d) =
      ground (arith, e.beq_iff k j, e.beq_iff i k, e.beq_iff i j, lookup-remove k j d)

-- Every value of a table has the property.
pub record Everywhere {K V : Type 0} ⦃e : Eq K⦄ (P : V → Type 0) (d : Dict K V) : Type 0 where
  pub at : (k : K) (v : V) → lookup k d ≡ some v → P v

-- A write or a removal, seen through the test on the key.
found_new :
    {V : Type 0} (P : V → Type 0) (b : Bool) {o : Option V} {v w : V}
    → P v
    → (o ≡ some w → P w)
    → (if b then some v else o) ≡ some w
    → P w
found_new P true p old h = subst P (some-injective _ _ h) p
found_new P false p old h = old h

found_old :
    {V : Type 0} (P : V → Type 0) (b : Bool) {o : Option V} {w : V}
    → (o ≡ some w → P w)
    → (if b then none else o) ≡ some w
    → P w
found_old P true old h = cc
found_old P false old h = old h

module _ {K V : Type 0} ⦃e : Eq K⦄ {P : V → Type 0} where
  pub Everywhere-nil : Everywhere {K = K} P []
  unfolding lookup
  Everywhere-nil = record { at = λ k v h. cc }

  pub Everywhere-insert :
      (k : K) (v : V) (d : Dict K V) → P v → Everywhere P d → Everywhere P (insert k v d)
  Everywhere-insert k v d p h = record {
    at = λ j w f. found_new P (k == j) p (h.at j w) (rw lookup-insert at f);
  }

  pub Everywhere-remove : (k : K) (d : Dict K V) → Everywhere P d → Everywhere P (remove k d)
  Everywhere-remove k d h = record {
    at = λ j w f. found_old P (k == j) (h.at j w) (rw lookup-remove at f);
  }

-- Every key stands once, as in a Python `dict`.
abbrev pub IsKeyed : {K V : Type 0} ⦃e : Eq K⦄ → Dict K V → Type 0
IsKeyed [] = Unit
IsKeyed ((k, v) ∷ d) = (lookup k d ≡ none) × IsKeyed d

module _ {K V : Type 0} ⦃e : Eq K⦄ where
  pub insert-IsKeyed : (k : K) (v : V) (d : Dict K V) → IsKeyed d → IsKeyed (insert k v d)
  unfolding lookup insert
  insert-IsKeyed k v [] h = (refl, tt)
  insert-IsKeyed k v ((j, w) ∷ d) h =
      ground (arith, e.beq_iff j k, e.beq_iff k j, lookup-insert k j v d, insert-IsKeyed k v d h.1)

  -- Each entry of a longer table is still found if its key is not the new one.
  found_behind :
      (j : K) (w : V) (d rows : Dict K V)
      → lookup j d ≡ none
      → All (λ r. lookup r.0 d ≡ some r.1) rows
      → All (λ r. lookup r.0 ((j, w) ∷ d) ≡ some r.1) rows
  unfolding lookup
  found_behind j w d [] new h = tt
  found_behind j w d ((k, v) ∷ rows) new h =
      ground (arith, e.beq_iff j k, found_behind j w d rows new h.1)

  pub IsKeyed-found : (d : Dict K V) → IsKeyed d → All (λ r. lookup r.0 d ≡ some r.1) d
  IsKeyed-found [] h = tt
  IsKeyed-found ((j, w) ∷ d) h = (
    unfold lookup in ground (arith, e.beq_iff j j),
    found_behind j w d d h.0 (IsKeyed-found d h.1),
  )
