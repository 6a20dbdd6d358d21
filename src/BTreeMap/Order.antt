-- ===== src/BTreeMap/Order.antt =====
-- The order of Rust's `cmp` on texts.
use Prim.Native.Nat.{Ordering}
use Prim.Native.String.{compare}
use Prim.Native.String.compare as clauses
use wasm_vault.Prelude.{String, ◌≡◌, ◌≢◌, arith}

nil_least : (s : String) → compare s String.[] ≢ Ordering.lt
nil_least String.[] h = ground (arith, clauses.nil-nil)
nil_least (String.◌∷◌ c s) h = ground (arith, clauses.cons-nil c s)

pub compare_trans :
    (r s t : String)
    → compare r s ≡ Ordering.lt
    → compare s t ≡ Ordering.lt
    → compare r t ≡ Ordering.lt
compare_trans (String.◌∷◌ a r) (String.◌∷◌ b s) (String.◌∷◌ c t) p q = ground (
  arith,
  clauses.cons-cons a b r s,
  clauses.cons-cons b c s t,
  clauses.cons-cons a c r t,
  compare_trans r s t,
)
compare_trans r String.[] t p q = absurd (nil_least r p)
compare_trans r s String.[] p q = absurd (nil_least s q)
compare_trans String.[] s (String.◌∷◌ c t) p q = clauses.nil-cons c t

pub compare_flip : (s t : String) → compare s t ≡ Ordering.gt → compare t s ≡ Ordering.lt
compare_flip String.[] String.[] h = ground (arith, clauses.nil-nil)
compare_flip String.[] (String.◌∷◌ d t) h = ground (arith, clauses.nil-cons d t)
compare_flip (String.◌∷◌ c s) String.[] h = clauses.nil-cons c s
compare_flip (String.◌∷◌ c s) (String.◌∷◌ d t) h =
    ground (arith, clauses.cons-cons c d s t, clauses.cons-cons d c t s, compare_flip s t)
