-- ===== src/Addresses/Containing.antt =====
-- `getContainingSymbol` against its promise: the last symbol at or before an address.
use libdwarfparser.Prelude.{
  ℕ, ◌≡◌, ◌≤◌, ◌<◌, refl, ◌∙◌, String, if◌then◌else◌, ltb, [], ◌∷◌, ◌++◌, arith, All,
}
use libdwarfparser.Outcome.{Outcome, ok, fail, undefined}
use libdwarfparser.OrderedMap.{OrderedMap, before_upper, from_upper, Above, IsAscending}
use libdwarfparser.Addresses.{Addresses, previous_key, get_containing_symbol}

-- Every key is at most `a`.
abbrev pub AtMost : ℕ → OrderedMap String → Type 0
AtMost a = All (λ e. e.0 ≤ a)

from_upper-AtMost : (m : OrderedMap String) (a : ℕ) → AtMost a m → from_upper m a ≡ []
unfolding from_upper
from_upper-AtMost [] a h = refl
from_upper-AtMost ((k, n) ∷ m) a h = ground (arith, from_upper-AtMost m a h.1)

-- What stands before an entry of an ascending map has a smaller key.
Above-AtMost :
    (b : ℕ) (before : OrderedMap String) (k : ℕ) (n : String) (rest : OrderedMap String)
    → Above b (before ++ (k, n) ∷ rest)
    → (b < k) × AtMost k before
Above-AtMost b [] k n rest h = (h.0, tt)
Above-AtMost b ((j, n') ∷ before) k n rest h =
    let ih = Above-AtMost j before k n rest h.1 in
    (omega (arith, ih.0, h.0), (omega (arith, ih.0), ih.1))

IsAscending-AtMost :
    (before : OrderedMap String) (k : ℕ) (n : String) (rest : OrderedMap String)
    → IsAscending (before ++ (k, n) ∷ rest)
    → AtMost k before
IsAscending-AtMost [] k n rest h = tt
IsAscending-AtMost ((j, n') ∷ before) k n rest h =
    let ih = Above-AtMost j before k n rest h in (omega (arith, ih.0), ih.1)

previous_key-last :
    (before : OrderedMap String) (k : ℕ) (n : String) → previous_key (before ++ (k, n) ∷ []) ≡ ok k
unfolding previous_key
previous_key-last [] k n = refl
previous_key-last (e ∷ []) k n = refl
previous_key-last (e ∷ e' ∷ before) k n = previous_key-last (e' ∷ before) k n

module _ (address k j : ℕ) (n n' : String) (after : OrderedMap String) (low : k ≤ address)
    (high : address < j) where
  from_upper-between :
      (before : OrderedMap String)
      → AtMost k before
      → from_upper (before ++ (k, n) ∷ (j, n') ∷ after) address ≡ (j, n') ∷ after
  unfolding from_upper
  from_upper-between [] h = ground arith
  from_upper-between ((i, n'') ∷ before) h = ground (arith, from_upper-between before h.1)

  before_upper-between :
      (before : OrderedMap String)
      → AtMost k before
      → before_upper (before ++ (k, n) ∷ (j, n') ∷ after) address ≡ before ++ (k, n) ∷ []
  unfolding before_upper
  before_upper-between [] h = ground arith
  before_upper-between ((i, n'') ∷ before) h = ground (arith, before_upper-between before h.1)

-- Where `k` and `j` are the addresses of neighbouring symbols, the symbol that contains an address
-- from `k` up to `j` is the one at `k`.
pub get_containing_symbol-between :
    (s : Addresses) (address k j : ℕ) (n n' : String) (before after : OrderedMap String)
    → s.elf_symbol_rev_map ≡ before ++ (k, n) ∷ (j, n') ∷ after
    → IsAscending s.elf_symbol_rev_map
    → k ≤ address
    → address < j
    → get_containing_symbol s address ≡ ok k
unfolding get_containing_symbol
get_containing_symbol-between s address k j n n' before after e up low high =
    let small = IsAscending-AtMost before k n ((j, n') ∷ after) (rw e at up) in
    let next : from_upper s.elf_symbol_rev_map address ≡ (j, n') ∷ after =
      rw e (from_upper-between address k j n n' after low high before small) in
    let first : before_upper s.elf_symbol_rev_map address ≡ before ++ (k, n) ∷ [] =
      rw e (before_upper-between address k j n n' after low high before small) in
    rw (next, get_containing_symbol) (rw first (previous_key-last before k n))

-- At or behind the last symbol the answer is 0, though that symbol is the one before the address.
pub get_containing_symbol-last :
    (s : Addresses) (address : ℕ)
    → AtMost address s.elf_symbol_rev_map
    → get_containing_symbol s address ≡ ok 0
unfolding get_containing_symbol
get_containing_symbol-last s address h =
    rw (from_upper-AtMost s.elf_symbol_rev_map address h, get_containing_symbol)

-- Before the first symbol the iterator `begin()` is decremented.
pub get_containing_symbol-first :
    (s : Addresses) (address k : ℕ) (n : String) (after : OrderedMap String)
    → s.elf_symbol_rev_map ≡ (k, n) ∷ after
    → address < k
    → get_containing_symbol s address ≡ fail undefined
unfolding get_containing_symbol from_upper before_upper previous_key
get_containing_symbol-first s address k n after e h =
    let next : from_upper s.elf_symbol_rev_map address ≡ (k, n) ∷ after = rw e (ground arith) in
    let first : before_upper s.elf_symbol_rev_map address ≡ [] = rw e (ground arith) in
    rw (next, get_containing_symbol) (rw first)

-- The last address at or before another one in a table in ascending order, if a symbol is behind
-- it; where there is none, 0; and before the first symbol, the step back from `begin()`.
unfoldable pub containing : OrderedMap String → ℕ → Outcome ℕ
containing [] address = ok 0
containing ((k, n) ∷ []) address = if ltb address k then fail undefined else ok 0
containing ((k, n) ∷ (j, n') ∷ m) address =
    let rest = containing ((j, n') ∷ m) address in
    if ltb address k then fail undefined else if ltb address j then ok k else rest

-- What `get_containing_symbol` computes of a table.
abbrev step_back : OrderedMap String → OrderedMap String → Outcome ℕ
step_back [] before = ok 0
step_back (e ∷ after) before = previous_key before

step_back-containing :
    (m : OrderedMap String) (address : ℕ)
    → IsAscending m
    → step_back (from_upper m address) (before_upper m address) ≡ containing m address
unfolding containing from_upper before_upper previous_key
step_back-containing [] address up = refl
step_back-containing ((k, n) ∷ []) address up = ground arith
step_back-containing ((k, n) ∷ (j, n') ∷ m) address up =
    ground (arith, step_back-containing ((j, n') ∷ m) address up.1)

stepped :
    (s : Addresses) (address : ℕ) (after : OrderedMap String)
    → from_upper s.elf_symbol_rev_map address ≡ after
    → get_containing_symbol s address ≡ step_back after (before_upper s.elf_symbol_rev_map address)
unfolding get_containing_symbol
stepped s address [] e = rw (e, get_containing_symbol) refl
stepped s address (entry ∷ after) e = rw (e, get_containing_symbol) refl

-- On addresses in ascending order, `getContainingSymbol` gives the last address at or before the one
-- asked for only if a symbol stands behind it; it gives 0 at and behind the last symbol and in a
-- table without symbols, and is undefined before the first symbol.
pub get_containing_symbol-eq-containing :
    (s : Addresses) (address : ℕ)
    → IsAscending s.elf_symbol_rev_map
    → get_containing_symbol s address ≡ containing s.elf_symbol_rev_map address
get_containing_symbol-eq-containing s address up =
    stepped s address (from_upper s.elf_symbol_rev_map address) refl
    ∙ step_back-containing s.elf_symbol_rev_map address up
