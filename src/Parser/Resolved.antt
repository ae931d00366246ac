-- ===== src/Parser/Resolved.antt =====
-- The symbols that entries make can be looked up by the identifiers of the entries: the constructors
-- and `initSymbolFromDie` (libdwarfparser/dwarfparser.cpp).
pub mod Entries
pub mod Files
use libdwarfparser.Prelude.{
  ℕ, ◌+◌, ◌<◌, length, sym, subst, ◌≡◌, ◌≢◌, ◌⊎◌, inl, inr, refl, String, Bool, true, false, Option,
  none, some, [], ◌∷◌, ◌==◌, ◌%◌, nat_eq, pair_eq, nat_beq_iff, pair_beq_iff, arith, Option-cases,
  Bool-cases, if◌then◌else◌,
}
use libdwarfparser.Outcome.{Outcome, ok, fail}
use libdwarfparser.Map.{
  Map, find, assign, touch, at_or, find-assign, find-assign_own, find-touch, All-find,
}
use libdwarfparser.Ids
use libdwarfparser.Ids.{Ids, DwarfId}
use libdwarfparser.Ids.Numbered.{IsNumbered, get_id-IsNumbered}
use libdwarfparser.Symbols.{Symbol, Kind, TypeKind, RefKind, Pointer, base_type}
use libdwarfparser.Manager.{SymbolManager, Method, pure, lift, get_id, deref, alloc, ◌>>=◌, ◌>>◌}
use libdwarfparser.Manager.Find.{resolve}
use libdwarfparser.Manager.Register.{add_symbol, add_alternative_id}
use libdwarfparser.Manager.Sound.{IsSound, IsEntered, sound_entries, entered}
use libdwarfparser.Manager.Sound.Extends.{Extends}
use libdwarfparser.Manager.Sound.Keeps.{Keeps, lift-Keeps, pure-Keeps, enter_lem}
use libdwarfparser.Manager.Sound.Establishes.{
  After, Establishes, IsLasting, before-Establishes, after-Establishes, lift_bind-Establishes,
}
use libdwarfparser.Parser.{Parser, Die, get_die_byte_size, get_die_offset}
use libdwarfparser.Parser.Objects.{u32, new_symbol, add_alternative_dwarf_id}
use libdwarfparser.Parser.Init.{known_again}

-- The pair has the identifier, which is none of those after the counter has come round.
abbrev pub IsIssued : Ids → DwarfId → ℕ → Type 0
IsIssued s d i = (length s.id_map < Ids.u64) → (find s.id_map d ≡ some i) × (i ≢ 0)

IsIssued-Extends :
    (m m' : SymbolManager) (d : DwarfId) (i : ℕ)
    → Extends m m'
    → IsIssued m.ids d i
    → IsIssued m'.ids d i
IsIssued-Extends m m' d i e issued few =
    let (at, real) = issued (omega (arith, e.grown, few)) in (e.issued d i real at, real)

-- The identifier that was issued for the entry leads to a symbol, as long as fewer than 2 ^ 64 pairs
-- have identifiers.
abbrev pub IsResolved : Parser → Die → SymbolManager → Type 0
IsResolved p d m =
    (offset : ℕ) × (get_die_offset p d ≡ ok offset)
    × (i : ℕ) × IsIssued m.ids (offset, p.file_id) i
    × (q : Pointer) × (resolve m i ≡ some q)

pub IsResolved-IsLasting : (p : Parser) (d : Die) → IsLasting (IsResolved p d)
IsResolved-IsLasting p d m m' e (offset, placed, i, issued, q, leads) =
    let (q', leads') = e.resolved i q leads in
    (offset, placed, i, IsIssued-Extends m m' (offset, p.file_id) i e issued, q', leads')

-- What `getID` gives is what it issued.
find-get_id_own :
    (s : Ids) (d : DwarfId) → find (Ids.get_id s d).1.id_map d ≡ some (Ids.get_id s d).0
unfolding Ids.get_id at_or
find-get_id_own s d = ground (
  arith,
  find-assign_own (touch s.id_map d 0) d ((s.current_id + 1) % Ids.u64),
  find-touch s.id_map d d 0,
  pair_beq_iff d d,
)

get_id-IsIssued :
    (s : Ids) (d : DwarfId) → IsNumbered s → IsIssued (Ids.get_id s d).1 d (Ids.get_id s d).0
get_id-IsIssued s d n few =
    let at = find-get_id_own s d in
    (at, IsNumbered.real ((get_id-IsNumbered s d).1 n) few d (Ids.get_id s d).0 at)

-- What an identifier leads to that was entered or became an alias.
resolve-assign : (m : SymbolManager) (s : Symbol) → resolve (entered m s) s.id ≡ some m.heap.next
unfolding resolve
resolve-assign m s = rw (find-assign_own m.symbol_id_map s.id m.heap.next, resolve) refl

resolve-alias :
    (m : SymbolManager) (id new_id : ℕ) (p : Pointer)
    → find m.symbol_id_map id ≡ some p
    → (q : Pointer) × (resolve (add_alternative_id id new_id m).1 new_id ≡ some q)
unfolding resolve add_alternative_id
resolve-alias m id new_id p at = elim (Option-cases (find m.symbol_id_map new_id)) [
  | inl free ↦ (p, rw (free, resolve, find-assign_own m.symbol_id_alias_map new_id id) at)
  | inr (q, there) ↦ (q, rw (there, resolve) refl)
]

-- The constructor of `Symbol`.
pub new_symbol-IsResolved :
    (p : Parser) (d : Die) (name : String) (kind : Kind)
    → Establishes (IsResolved p d) (new_symbol p d name kind)
unfolding new_symbol
new_symbol-IsResolved p d name kind =
    after-Establishes (IsResolved p d) (lift (get_die_byte_size p d)) _
      (lift-Keeps (get_die_byte_size p d))
      (λ size. lift_bind-Establishes (IsResolved p d) (get_die_offset p d) _ (λ offset placed.
        record {
          holds = λ m v n.
              let (id, ids) = Ids.get_id m.ids (offset, p.file_id) in
              let s : Symbol = record {
                name = name;
                byte_size = size % u32;
                id = id;
                kind = kind;
              } in
              subst (After (IsResolved p d)) (sym (enter_lem (record m { ids = ids }) s)) (
                offset,
                placed,
                id,
                get_id-IsIssued m.ids (offset, p.file_id) n,
                m.heap.next,
                resolve-assign (record m { ids = ids }) s,
              );
        }))

-- A symbol that is known becomes that of the entry.
pub known_again-IsResolved :
    (p : Parser) (d : Die) (q : Pointer) → Establishes (IsResolved p d) (known_again p d q)
unfolding known_again add_alternative_dwarf_id
known_again-IsResolved p d q =
    lift_bind-Establishes (IsResolved p d) (get_die_offset p d) _ (λ offset placed. record {
      holds = λ m v n. elim (Option-cases (find m.heap.cells q)) [
        | inl gone ↦ rw gone tt
        | inr (s, there) ↦
            let (id, ids) = Ids.get_id m.ids (offset, p.file_id) in
            let (t, at) =
              All-find (IsEntered m.symbol_id_map) m.heap.cells q s (sound_entries m v) there in
            let (t', leads) = resolve-alias (record m { ids = ids }) s.id id t at in
            rw there (offset, placed, id, get_id-IsIssued m.ids (offset, p.file_id) n, t', leads)
      ];
    })
