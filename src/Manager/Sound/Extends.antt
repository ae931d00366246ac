-- ===== src/Manager/Sound/Extends.antt =====
-- What no method of `SymbolManager` (libdwarfparser/symbolmanager.cpp) that the parser uses takes
-- back: identifiers that were issued, and those that a look-up answers.
use libdwarfparser.Prelude.{
  ℕ, ◌≡◌, ◌≢◌, ◌≤◌, length, sym, Option, ap, ◌∙◌, ◌+◌, ◌%◌, pair_beq_iff, none, some, ◌==◌, nat_eq,
  nat_beq_iff, pair_eq, arith, Bool-cases, Option-cases, inl, inr,
}
use libdwarfparser.Map.{Map, find, assign, find-assign, find-touch, at_or, touch}
use libdwarfparser.Ids
use libdwarfparser.Ids.{Ids, DwarfId}
use libdwarfparser.Ids.Numbered.{IsNumbered, get_id-IsNumbered}
use libdwarfparser.Symbols.{Pointer}
use libdwarfparser.Manager.{SymbolManager}
use libdwarfparser.Manager.Find.{resolve}

-- From the first manager to the second, no identifier other than 0 that was issued and none that
-- leads to a symbol is lost.
pub record Extends (m m' : SymbolManager) : Type 0 where
  pub issued :
      (d : DwarfId) (i : ℕ) → i ≢ 0 → find m.ids.id_map d ≡ some i → find m'.ids.id_map d ≡ some i
  pub resolved :
      (i : ℕ) (q : Pointer) → resolve m i ≡ some q → (q' : Pointer) × (resolve m' i ≡ some q')
  pub numbered : IsNumbered m.ids → IsNumbered m'.ids
  pub grown : length m.ids.id_map ≤ length m'.ids.id_map

pub Extends-refl : (m : SymbolManager) → Extends m m
Extends-refl m = record {
  issued = λ d i real at. at;
  resolved = λ i q at. (q, at);
  numbered = λ n. n;
  grown = omega arith;
}

pub Extends-trans : (m m' m'' : SymbolManager) → Extends m m' → Extends m' m'' → Extends m m''
Extends-trans m m' m'' e e' = record {
  issued = λ d i real at. e'.issued d i real (e.issued d i real at);
  resolved = λ i q at. let (q', at') = e.resolved i q at in e'.resolved i q' at';
  numbered = λ n. e'.numbered (e.numbered n);
  grown = omega (arith, e.grown, e'.grown);
}

-- `resolve` on the two maps that it reads.
abbrev resolve_in : Map ℕ Pointer → Map ℕ ℕ → ℕ → Option Pointer
resolve_in entries aliases id = elim (find entries id) [
  | some p ↦ some p
  | none ↦ elim (find aliases id) [ none ↦ none | some new_id ↦ find entries new_id ]
]

-- Nothing that matters has changed.
pub Extends-same :
    (m m' : SymbolManager)
    → m'.ids.id_map ≡ m.ids.id_map
    → m'.ids.current_id ≡ m.ids.current_id
    → m'.symbol_id_map ≡ m.symbol_id_map
    → m'.symbol_id_alias_map ≡ m.symbol_id_alias_map
    → Extends m m'
unfolding resolve
Extends-same m m' ids current index aliases = record {
  issued = λ d i real at. ap (λ t. find t d) ids ∙ at;
  resolved = λ i q at. (
    q,
    ap (λ t. resolve_in t m'.symbol_id_alias_map i) index
        ∙ ap (λ t. resolve_in m.symbol_id_map t i) aliases
        ∙ at,
  );
  numbered = λ n. record {
    counted = λ few. current ∙ n.counted (rw ids at few) ∙ ap (λ t. length t) (sym ids);
    real = λ few d i at. n.real (rw ids at few) d i (rw ids at at);
  };
  grown = rw ids (omega arith);
}

-- `getID` leaves what was issued before.
find-get_id :
    (s : Ids) (pair d : DwarfId) (i : ℕ)
    → i ≢ 0
    → find s.id_map d ≡ some i
    → find (Ids.get_id s pair).1.id_map d ≡ some i
unfolding Ids.get_id at_or
find-get_id s pair d i real at = ground (
  arith,
  find-assign (touch s.id_map pair 0) pair d ((s.current_id + 1) % Ids.u64),
  find-touch s.id_map pair d 0,
  pair_beq_iff pair d,
  nat_beq_iff (at_or s.id_map pair 0) 0,
)

pub get_id-Extends :
    (m : SymbolManager) (d : DwarfId) → Extends m (record m { ids = (Ids.get_id m.ids d).1 })
unfolding resolve
get_id-Extends m d = record {
  issued = λ d' i real at. find-get_id m.ids d d' i real at;
  resolved = λ i q at. (q, at);
  numbered = (get_id-IsNumbered m.ids d).1;
  grown = (get_id-IsNumbered m.ids d).0;
}

-- An identifier is entered.
pub assign-Extends :
    (m : SymbolManager) (i : ℕ) (p : Pointer)
    → Extends m (record m { symbol_id_map = assign m.symbol_id_map i p })
unfolding resolve
assign-Extends m i p = record {
  issued = λ d j real at. at;
  numbered = λ n. n;
  grown = omega arith;
  resolved = λ j q at. elim (Option-cases (find m.symbol_id_map j)) [
    | inr (t, there) ↦ elim (Bool-cases (i == j)) [
      | inl same ↦ (p, ground (arith, find-assign m.symbol_id_map i j p))
      | inr other ↦ (t, ground (arith, find-assign m.symbol_id_map i j p))
    ]
    | inl missing ↦ elim (Bool-cases (i == j)) [
      | inl same ↦ (p, ground (arith, find-assign m.symbol_id_map i j p))
      | inr other ↦ elim (Option-cases (find m.symbol_id_alias_map j)) [
        | inl unknown ↦ absurd (ground arith)
        | inr (k, alias) ↦ elim (Bool-cases (i == k)) [
          | inl here ↦ (
            p,
            ground (arith, find-assign m.symbol_id_map i j p, find-assign m.symbol_id_map i k p),
          )
          | inr there ↦ (
            q,
            ground (arith, find-assign m.symbol_id_map i j p, find-assign m.symbol_id_map i k p),
          )
        ]
      ]
    ]
  ];
}

-- An identifier becomes an alias of one that is entered.
pub alias-Extends :
    (m : SymbolManager) (id new_id : ℕ) (p : Pointer)
    → find m.symbol_id_map id ≡ some p
    → Extends m (record m { symbol_id_alias_map = assign m.symbol_id_alias_map new_id id })
unfolding resolve
alias-Extends m id new_id p entered = record {
  issued = λ d j real at. at;
  numbered = λ n. n;
  grown = omega arith;
  resolved = λ j q at. elim (Option-cases (find m.symbol_id_map j)) [
    | inr (t, there) ↦ (t, ground arith)
    | inl missing ↦ elim (Bool-cases (new_id == j)) [
      | inl same ↦
          (p, ground (arith, find-assign m.symbol_id_alias_map new_id j id, nat_beq_iff new_id j))
      | inr other ↦ (q, ground (arith, find-assign m.symbol_id_alias_map new_id j id))
    ]
  ];
}
