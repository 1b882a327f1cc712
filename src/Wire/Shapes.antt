-- ===== src/Wire/Shapes.antt =====
-- What a test of the shape of a JSON value lets through.
use agentbridge.Base.{String, Bool, true, false, not, ◌&&◌, ◌||◌, ◌≡◌, refl, arith}
use agentbridge.Wire.Json.{
  Json, null, bool, number, str, arr, obj, Fields, Parsed, got, bad, WireError, refuse_if,
  require_mapping, ◌>>=◌,
}
use agentbridge.Wire.Canonical.{require_text}
use agentbridge.Wire.Tasks.{require_task}

pub got-bind {ℓ κ} :
    {A : Type ℓ} {B : Type κ} (m : Parsed A) (k : A → Parsed B) (b : B)
    → m >>= k ≡ got b
    → (a : A) × (m ≡ got a) × (k a ≡ got b)
got-bind (got a) k b h = (a, refl, h)
got-bind (bad e) k b h = absurd (ground arith)

pub mapping-obj : (j : Json) (fs : Fields) → require_mapping j ≡ got fs → j ≡ obj fs
mapping-obj null fs h = absurd (ground (arith, h))
mapping-obj (bool b) fs h = absurd (ground (arith, h))
mapping-obj (number b s) fs h = absurd (ground (arith, h))
mapping-obj (str s) fs h = absurd (ground (arith, h))
mapping-obj (arr js) fs h = absurd (ground (arith, h))
mapping-obj (obj gs) fs h = ground (arith, h)

pub text-str : (j : Json) (s : String) → require_text j ≡ got s → j ≡ str s
text-str null s h = absurd (ground (arith, h))
text-str (bool b) s h = absurd (ground (arith, h))
text-str (number b n) s h = absurd (ground (arith, h))
text-str (str t) s h = ground (arith, h)
text-str (arr js) s h = absurd (ground (arith, h))
text-str (obj gs) s h = absurd (ground (arith, h))

pub not_refused : (b : Bool) (e : WireError) (u : Unit {0}) → refuse_if (not b) e ≡ got u → b ≡ true
not_refused true e u h = refl
not_refused false e u h = absurd (ground (arith, h))

pub method_known :
    (a b : Bool) (e : WireError) (u : Unit {0})
    → refuse_if (not a && not b) e ≡ got u
    → (a || b) ≡ true
method_known true b e u h = refl
method_known false true e u h = refl
method_known false false e u h = absurd (ground (arith, h))

pub task-obj : (j : Json) (fs : Fields) → require_task j ≡ got fs → j ≡ obj fs
task-obj null fs h = absurd (ground (arith, h))
task-obj (bool b) fs h = absurd (ground (arith, h))
task-obj (number b s) fs h = absurd (ground (arith, h))
task-obj (str s) fs h = absurd (ground (arith, h))
task-obj (arr js) fs h = absurd (ground (arith, h))
task-obj (obj gs) fs h = ground (arith, h)
