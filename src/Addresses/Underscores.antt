-- ===== src/Addresses/Underscores.antt =====
-- The names that the renaming loops try, and the measure by which the loops end.
use Prim.Native.String.{◌++◌, count}
use text.Mathlib.TextLemmas.{length-append}
use libdwarfparser.Prelude.{
  ℕ, zero, suc, ◌+◌, ◌≤◌, ◌<◌, ◌≡◌, ap, String, some, [], ◌∷◌, length, leb, if◌then◌else◌, arith,
  eq_iff, nat_eq, string_eq,
}
use libdwarfparser.Map.{Map, find}

-- A name with `k` underscores behind it.
unfoldable pub underscored : String → ℕ → String
underscored name zero = name
underscored name (suc k) = underscored (name ++ "_") k

-- The entries whose names have at least `n` characters.
pub long_names : ℕ → Map String ℕ → ℕ
long_names n [] = 0
long_names n ((k, v) ∷ m) = if leb n (count k) then suc (long_names n m) else long_names n m

pub long_names-le : (n : ℕ) (m : Map String ℕ) → long_names n m ≤ length m
unfolding long_names
long_names-le n [] = omega arith
long_names-le n ((k, v) ∷ m) = ground (arith, long_names-le n m)

long_names-antitone : (n : ℕ) (m : Map String ℕ) → long_names (n + 1) m ≤ long_names n m
unfolding long_names
long_names-antitone n [] = omega arith
long_names-antitone n ((k, v) ∷ m) = ground (arith, long_names-antitone n m)

-- A name that is in the map is one of those of its length, and none of the longer ones.
pub long_names-find :
    (m : Map String ℕ) (k : String) (v : ℕ)
    → find m k ≡ some v
    → long_names (count k + 1) m < long_names (count k) m
unfolding long_names find
long_names-find [] k v h = cc
long_names-find ((j, w) ∷ m) k v h = ground (
  arith,
  eq_iff j k,
  ap count {x = j} {y = k},
  long_names-antitone (count k) m,
  long_names-find m k v,
)

pub count-underscore : (name : String) → count (name ++ "_") ≡ count name + 1
count-underscore name = length-append name "_"
