-- ===== src/Manager/Find.antt =====
-- `findSymbolByID` over a consistent index: which symbol it gives, and when it gives none.
use libdwarfparser.Prelude.{
  ℕ, ◌≡◌, ◌≢◌, inl, inr, refl, sym, ◌∙◌, ap, Option, none, some, List, [], ◌∷◌, arith, nat_eq, All,
  Option-cases,
}
use libdwarfparser.Outcome.{ok, fail, assertion}
use libdwarfparser.Map.{find, at_or, touch, All-find}
use libdwarfparser.Symbols.{Symbol, Pointer}
use libdwarfparser.Manager.{SymbolManager, Heap}
use libdwarfparser.Manager.Lookup.{find_symbol_by_id, find_by_aliases, find_by_reverse}

none-ne-some {ℓ} : {A : Type ℓ} {a : A} → none ≡ some a → ⊥
none-ne-some h = cc

-- The object at `p` carries the identifier `id`.
abbrev pub Carries : Heap → ℕ × Pointer → Type 0
Carries h (id, p) = (s : Symbol) × (find h.cells p ≡ some s) × (s.id ≡ id)

-- Every entry of `symbolIDMap` leads to an object that is there and carries the entry's identifier.
abbrev pub IsIndexed : SymbolManager → Type 0
IsIndexed m = All (Carries m.heap) m.symbol_id_map

-- The symbol entered under `id`, or else under the identifier that `id` is an alias of.
unfoldable pub resolve : SymbolManager → ℕ → Option Pointer
resolve m id = elim (find m.symbol_id_map id) [
  | some p ↦ some p
  | none ↦ elim (find m.symbol_id_alias_map id) [
    | none ↦ none
    | some new_id ↦ find m.symbol_id_map new_id
  ]
]

-- The loop over the aliases never answers: what it finds carries the alias, and not `id`.
find_by_reverse_fails :
    (id : ℕ) (is : List ℕ) (m : SymbolManager)
    → IsIndexed m
    → find m.symbol_id_map id ≡ none
    → (find_by_reverse id is m).0 ≡ fail assertion
unfolding find_by_reverse
find_by_reverse_fails id [] m v h = refl
find_by_reverse_fails id (i ∷ is) m v h = elim (Option-cases (find m.symbol_id_map i)) [
  | inl missing ↦ rw (missing, find_by_reverse) (find_by_reverse_fails id is m v h)
  | inr (p, there) ↦
      let (s, at, same) = All-find (Carries m.heap) m.symbol_id_map i p v there in
      let other : id ≢ i =
        λ e. absurd (none-ne-some (sym h ∙ ap (λ n. find m.symbol_id_map n) e ∙ there)) in
      rw (there, find_by_reverse) (ground (arith, at, same, other))
]

find_by_aliases_fails :
    (id : ℕ) (m : SymbolManager)
    → IsIndexed m
    → find m.symbol_id_map id ≡ none
    → (find_by_aliases id m).0 ≡ fail assertion
unfolding find_by_aliases
find_by_aliases_fails id m v h =
    find_by_reverse_fails id (at_or m.symbol_id_alias_reverse_list id [])
      (record m { symbol_id_alias_reverse_list = touch m.symbol_id_alias_reverse_list id [] }) v h

-- In an index that is consistent, `findSymbolByID` answers with the symbol that the identifier
-- resolves to and changes nothing.
pub find_symbol_by_id-resolved :
    (m : SymbolManager) (id : ℕ) (p : Pointer)
    → IsIndexed m
    → resolve m id ≡ some p
    → find_symbol_by_id id m ≡ (ok p, m)
unfolding resolve find_symbol_by_id
find_symbol_by_id-resolved m id p v h = elim (Option-cases (find m.symbol_id_map id)) [
  | inr (q, there) ↦ ground arith
  | inl missing ↦ elim (Option-cases (find m.symbol_id_alias_map id)) [
    | inl unaliased ↦ ground arith
    | inr (n, aliased) ↦
        let there : find m.symbol_id_map n ≡ some p = ground arith in
        let (s, at, same) = All-find (Carries m.heap) m.symbol_id_map n p v there in
        ground (arith, at, same)
  ]
]

-- In an index that is consistent, where an identifier resolves to none an assertion of
-- `findSymbolByID` fails: the search through the reverse list of the aliases never gives a symbol.
pub find_symbol_by_id-unresolved :
    (m : SymbolManager) (id : ℕ)
    → IsIndexed m
    → resolve m id ≡ none
    → (find_symbol_by_id id m).0 ≡ fail assertion
unfolding resolve find_symbol_by_id
find_symbol_by_id-unresolved m id v h = elim (Option-cases (find m.symbol_id_map id)) [
  | inr (q, there) ↦ ground arith
  | inl missing ↦
      let none_found = find_by_aliases_fails id m v missing in
      elim (Option-cases (find m.symbol_id_alias_map id)) [
        | inl unaliased ↦ ground (arith, none_found)
        | inr (n, aliased) ↦ ground (arith, none_found)
      ]
]
