-- ===== src/Parser/Resolved/Files.antt =====
-- After a file was read, the identifiers of its entries lead to symbols: `read_cu_list` (libdwarfparser/dwarfparser.cpp) and
-- `findSymbolByID` (libdwarfparser/symbolmanager.cpp).
use libdwarfparser.Prelude.{
  ℕ, ◌≢◌, ◌≡◌, ◌<◌, arith, ◌∙◌, sym, subst, ap, Bool, true, false, some, List, [], ◌∷◌, length,
  nat_eq, pair_eq,
}
use libdwarfparser.Outcome.{Outcome, ok, fail}
use libdwarfparser.Map.{find}
use libdwarfparser.Ids.{u64}
use libdwarfparser.Ids.Numbered.{IsNumbered}
use libdwarfparser.Symbols.{Pointer}
use libdwarfparser.Manager.{SymbolManager, Method, pure, ◌>>=◌, ◌>>◌}
use libdwarfparser.Manager.Find.{find_symbol_by_id-resolved}
use libdwarfparser.Manager.Lookup.{find_symbol_by_id}
use libdwarfparser.Manager.Sound.{IsSound}
use libdwarfparser.Manager.Sound.Keeps.{kept, Keeps, pure-Keeps, bind-Keeps}
use libdwarfparser.Manager.Sound.Establishes.{
  After, Establishes, IsLasting, before-Establishes, after-Establishes, both-Establishes,
  nothing-Establishes,
}
use libdwarfparser.Parser.{Parser, Die, get_die_offset}
use libdwarfparser.Parser.Init.{init_symbol_from_die}
use libdwarfparser.Parser.Walk.{Debug, read_cu_list}
use libdwarfparser.Parser.Walk.Preorder.{
  Forest, empty, entry, CompileUnit, ShowsUnits, AtMost, visit, visit_units,
  read_cu_list-eq-visit_units,
}
use libdwarfparser.Parser.Sound.Entries.{init_symbol_from_die-Keeps}
use libdwarfparser.Parser.Resolved.{IsResolved, IsResolved-IsLasting}
use libdwarfparser.Parser.Resolved.Entries.{When, makes_symbol, init_symbol_from_die-IsResolved}

-- `findSymbolByID` gives a symbol for the identifier that was issued for the entry, which is not 0.
abbrev pub IsFound : Parser → Die → SymbolManager → Type 0
IsFound p d m =
    (offset : ℕ) × (get_die_offset p d ≡ ok offset)
    × (i : ℕ) × (find m.ids.id_map (offset, p.file_id) ≡ some i)
    × (i ≢ 0)
    × (q : Pointer) × (find_symbol_by_id i m ≡ (ok q, m))

IsResolved-IsFound :
    (p : Parser) (d : Die) (m : SymbolManager)
    → IsSound m
    → length m.ids.id_map < u64
    → IsResolved p d m
    → IsFound p d m
IsResolved-IsFound p d m v few (offset, placed, i, issued, q, leads) =
    let (at, real) = issued few in
    (offset, placed, i, at, real, q, find_symbol_by_id-resolved m i q v.1 leads)

module _ (g : Debug) where
  -- Every entry of a forest that makes a symbol has a property.
  abbrev pub AllEntries : (Die → Type 0) → Forest → Type 0
  AllEntries P empty = Unit
  AllEntries P (entry h below behind) =
      When (makes_symbol (g.die h)) (P (g.die h)) × (AllEntries P below × AllEntries P behind)

  When-map : (b : Bool) (P Q : Type 0) → (P → Q) → When b P → When b Q
  When-map true P Q f p = f p
  When-map false P Q f p = tt

  AllEntries-map :
      (P Q : Die → Type 0) (f : Forest) → ((d : Die) → P d → Q d) → AllEntries P f → AllEntries Q f
  AllEntries-map P Q empty k a = tt
  AllEntries-map P Q (entry h below behind) k (a, (b, c)) = (
    When-map (makes_symbol (g.die h)) (P (g.die h)) (Q (g.die h)) (k (g.die h)) a,
    (AllEntries-map P Q below k b, AllEntries-map P Q behind k c),
  )

  pub visit-Keeps : (p : Parser) (f : Forest) (parent : Pointer) → Keeps (visit g p f parent)
  unfolding visit
  visit-Keeps p empty parent = pure-Keeps tt
  visit-Keeps p (entry h below behind) parent =
      bind-Keeps (init_symbol_from_die-Keeps p (g.die h) parent)
        (λ s. bind-Keeps (visit-Keeps p below s) (λ _. visit-Keeps p behind parent))

  entries-IsLasting :
      (p : Parser) (f : Forest) → IsLasting (λ m. AllEntries (λ d. IsResolved p d m) f)
  entries-IsLasting p f m m' e =
      AllEntries-map (λ d. IsResolved p d m) (λ d. IsResolved p d m') f
        (λ d. IsResolved-IsLasting p d m m' e)

  entry-IsLasting : (p : Parser) (d : Die) (b : Bool) → IsLasting (λ m. When b (IsResolved p d m))
  entry-IsLasting p d b m m' e =
      When-map b (IsResolved p d m) (IsResolved p d m') (IsResolved-IsLasting p d m m' e)

  visit-AllEntries :
      (p : Parser) (f : Forest) (parent : Pointer)
      → Establishes (λ m. AllEntries (λ d. IsResolved p d m) f) (visit g p f parent)
  unfolding visit
  visit-AllEntries p empty parent = nothing-Establishes (pure tt)
  visit-AllEntries p (entry h below behind) parent =
      let d = g.die h in
      let first = init_symbol_from_die p d parent in
      let first_kept = init_symbol_from_die-Keeps p d parent in
      let here : SymbolManager → Type 0 = λ m. When (makes_symbol d) (IsResolved p d m) in
      let down : SymbolManager → Type 0 = λ m. AllEntries (λ d. IsResolved p d m) below in
      let on : SymbolManager → Type 0 = λ m. AllEntries (λ d. IsResolved p d m) behind in
      let rest : Pointer → Method (Unit {0}) = λ s. visit g p below s >> visit g p behind parent in
      both-Establishes here (λ m. down m × on m) (first >>= rest)
        (before-Establishes here first rest (entry-IsLasting p d (makes_symbol d))
          (init_symbol_from_die-IsResolved p d parent) first_kept
          (λ s. bind-Keeps (visit-Keeps p below s) (λ _. visit-Keeps p behind parent)))
        (after-Establishes (λ m. down m × on m) first rest first_kept
          (λ s.
            both-Establishes down on (rest s)
              (before-Establishes down (visit g p below s) (λ _. visit g p behind parent)
                (entries-IsLasting p below) (visit-AllEntries p below s) (visit-Keeps p below s)
                (λ _. visit-Keeps p behind parent))
              (after-Establishes on (visit g p below s) (λ _. visit g p behind parent)
                (visit-Keeps p below s) (λ _. visit-AllEntries p behind parent))))

  -- The same of all the units of a file.
  abbrev pub AllUnits : (Die → Type 0) → List CompileUnit → Type 0
  AllUnits P [] = Unit
  AllUnits P (u ∷ us) = AllEntries P (entry u.handle u.below u.behind) × AllUnits P us

  AllUnits-map :
      (P Q : Die → Type 0) (us : List CompileUnit)
      → ((d : Die) → P d → Q d)
      → AllUnits P us
      → AllUnits Q us
  AllUnits-map P Q [] k a = tt
  AllUnits-map P Q (u ∷ us) k (a, b) =
      (AllEntries-map P Q (entry u.handle u.below u.behind) k a, AllUnits-map P Q us k b)

  visit_units-Keeps :
      (p : Parser) (offset : ℕ) (us : List CompileUnit) → Keeps (visit_units g p offset us)
  unfolding visit_units
  visit_units-Keeps p offset [] = pure-Keeps tt
  visit_units-Keeps p offset (u ∷ us) =
      bind-Keeps
        (visit-Keeps (record p { cur_cu_offset = offset }) (entry u.handle u.below u.behind) 0)
        (λ _. visit_units-Keeps p u.next us)

  visit_units-AllUnits :
      (p : Parser) (offset : ℕ) (us : List CompileUnit)
      → Establishes (λ m. AllUnits (λ d. IsResolved p d m) us) (visit_units g p offset us)
  unfolding visit_units get_die_offset
  visit_units-AllUnits p offset [] = nothing-Establishes (pure tt)
  visit_units-AllUnits p offset (u ∷ us) =
      let unit = record p { cur_cu_offset = offset } in
      let f = entry u.handle u.below u.behind in
      let here : SymbolManager → Type 0 = λ m. AllEntries (λ d. IsResolved p d m) f in
      let on : SymbolManager → Type 0 = λ m. AllUnits (λ d. IsResolved p d m) us in
      both-Establishes here on (visit g unit f 0 >> visit_units g p u.next us)
        (before-Establishes here (visit g unit f 0) (λ _. visit_units g p u.next us)
          (entries-IsLasting p f) (visit-AllEntries unit f 0) (visit-Keeps unit f 0)
          (λ _. visit_units-Keeps p u.next us))
        (after-Establishes on (visit g unit f 0) (λ _. visit_units g p u.next us)
          (visit-Keeps unit f 0) (λ _. visit_units-AllUnits p u.next us))

  after_return :
      (P : SymbolManager → Type 0) (x : Outcome (Unit {0}) × SymbolManager)
      → After P x
      → x.0 ≡ ok tt
      → P x.1
  after_return P (ok t, m) h e = h
  after_return P (fail e, m) h same = absurd (ground arith)

  -- After reading the units of a file, as libdwarf shows them, into a manager with sound containers
  -- and counted identifiers, if the reading has returned without an error and fewer than 2 ^ 64 pairs
  -- of an offset and a file have identifiers, the one of every entry of a structure, a union, a base
  -- type, an enumeration, a function, an array, or a variable that is no later specification of
  -- another is not 0, and `findSymbolByID` gives a symbol for it, in whatever order and however
  -- nested the entries stand and whichever names they share.
  pub read_cu_list-resolves :
      (p : Parser) (rounds n : ℕ) (us : List CompileUnit) (m : SymbolManager)
      → ShowsUnits g 0 us
      → AtMost g n us
      → length us < rounds
      → IsSound m
      → IsNumbered m.ids
      → (read_cu_list g p rounds n m).0 ≡ ok tt
      → length (read_cu_list g p rounds n m).1.ids.id_map < u64
      → AllUnits (λ d. IsFound p d (read_cu_list g p rounds n m).1) us
  read_cu_list-resolves p rounds n us m shown small bound v numbered returned few =
      let walk = read_cu_list-eq-visit_units g p rounds n us m shown small bound in
      let returned' : (visit_units g p 0 us m).0 ≡ ok tt = sym (ap (λ x. x.0) walk) ∙ returned in
      let m' = (visit_units g p 0 us m).1 in
      let all =
        after_return (λ m. AllUnits (λ d. IsResolved p d m) us) (visit_units g p 0 us m)
          (Establishes.holds (visit_units-AllUnits p 0 us) m v numbered) returned' in
      let few' : length m'.ids.id_map < u64 = subst (λ x. length x.1.ids.id_map < u64) walk few in
      subst (λ x. AllUnits (λ d. IsFound p d x.1) us) (sym walk)
        (AllUnits-map (λ d. IsResolved p d m') (λ d. IsFound p d m') us
          (λ d. IsResolved-IsFound p d m' (kept (visit_units-Keeps p 0 us) m tt v returned').0 few')
          all)
