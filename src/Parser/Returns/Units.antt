-- ===== src/Parser/Returns/Units.antt =====
-- A file that is read to its end (libdwarfparser/dwarfparser.cpp).
use libdwarfparser.Prelude.{ℕ, ◌≡◌, ◌<◌, refl, ap, ◌∙◌, List, [], ◌∷◌, length}
use libdwarfparser.Outcome.{ok}
use libdwarfparser.Symbols.{Pointer}
use libdwarfparser.Manager.{SymbolManager, ◌>>◌}
use libdwarfparser.Manager.Sound.{IsSound}
use libdwarfparser.Manager.Sound.Keeps.{kept}
use libdwarfparser.Ids.{u64}
use libdwarfparser.Ids.Numbered.{IsNumbered}
use libdwarfparser.Parser.{Parser}
use libdwarfparser.Parser.Init.{init_symbol_from_die}
use libdwarfparser.Parser.Walk.{Debug, read_cu_list}
use libdwarfparser.Parser.Walk.Preorder.{
  Forest, empty, entry, CompileUnit, ShowsUnits, AtMost, visit, visit_units,
  read_cu_list-eq-visit_units,
}
use libdwarfparser.Parser.Sound.Entries.{init_symbol_from_die-Keeps}
use libdwarfparser.Parser.Resolved.Files.{IsFound, AllUnits, visit-Keeps, read_cu_list-resolves}
use libdwarfparser.Parser.Returns.{Ends, bind-Ends, IsPlain, init_symbol_from_die-Ends}

module _ (g : Debug) where
  abbrev pub AllPlain : Forest → Type 0
  AllPlain empty = Unit
  AllPlain (entry h below behind) = IsPlain (g.die h) × (AllPlain below × AllPlain behind)

  abbrev pub AllPlainUnits : List CompileUnit → Type 0
  AllPlainUnits [] = Unit
  AllPlainUnits (u ∷ us) = AllPlain (entry u.handle u.below u.behind) × AllPlainUnits us

  visit-Ends :
      (p : Parser) (f : Forest) (parent : Pointer) (m : SymbolManager)
      → AllPlain f
      → IsSound m
      → Ends (visit g p f parent) m (λ _ m'. Unit)
  unfolding visit
  visit-Ends p empty parent m all v = (tt, refl, tt)
  visit-Ends p (entry h below behind) parent m (here, (down, on)) v =
      let first = init_symbol_from_die p (g.die h) parent in
      let (q, e, _) = init_symbol_from_die-Ends p (g.die h) parent m here v in
      let v' = (kept (init_symbol_from_die-Keeps p (g.die h) parent) m q v e).0 in
      bind-Ends first (λ s. visit g p below s >> visit g p behind parent) m (λ _ m'. Unit)
        (λ _ m'. Unit) (init_symbol_from_die-Ends p (g.die h) parent m here v)
        (λ s _.
          let inner = visit-Ends p below s (first m).1 down v' in
          bind-Ends (visit g p below s) (λ _. visit g p behind parent) (first m).1 (λ _ m'. Unit)
            (λ _ m'. Unit) inner
            (λ _ _.
              visit-Ends p behind parent (visit g p below s (first m).1).1 on
                (kept (visit-Keeps g p below s) (first m).1 inner.0 v' inner.1).0))

  visit_units-Ends :
      (p : Parser) (offset : ℕ) (us : List CompileUnit) (m : SymbolManager)
      → AllPlainUnits us
      → IsSound m
      → Ends (visit_units g p offset us) m (λ _ m'. Unit)
  unfolding visit_units
  visit_units-Ends p offset [] m all v = (tt, refl, tt)
  visit_units-Ends p offset (u ∷ us) m (here, rest) v =
      let unit = record p { cur_cu_offset = offset } in
      let f = entry u.handle u.below u.behind in
      let inner = visit-Ends unit f 0 m here v in
      bind-Ends (visit g unit f 0) (λ _. visit_units g p u.next us) m (λ _ m'. Unit) (λ _ m'. Unit)
        inner
        (λ _ _.
          visit_units-Ends p u.next us (visit g unit f 0 m).1 rest
            (kept (visit-Keeps g unit f 0) m inner.0 v inner.1).0)

  -- Reading the units of a file, as libdwarf shows them, into a manager with sound containers and
  -- counted identifiers returns if all entries are of types that are no references, or such as are
  -- passed over, if libdwarf gives their names, offsets, sizes and encodings or says that there are
  -- none, and if no more than 2 ^ 64 - 1 pairs of an offset and a file get identifiers; and then each
  -- of the types has an identifier other than 0, for which `findSymbolByID` gives a symbol.
  pub read_cu_list-returns :
      (p : Parser) (rounds n : ℕ) (us : List CompileUnit) (m : SymbolManager)
      → ShowsUnits g 0 us
      → AtMost g n us
      → length us < rounds
      → IsSound m
      → IsNumbered m.ids
      → AllPlainUnits us
      → length (read_cu_list g p rounds n m).1.ids.id_map < u64
      → ((read_cu_list g p rounds n m).0 ≡ ok tt)
        × AllUnits g (λ d. IsFound p d (read_cu_list g p rounds n m).1) us
  read_cu_list-returns p rounds n us m shown small bound v numbered plain few =
      let walk = read_cu_list-eq-visit_units g p rounds n us m shown small bound in
      let (t, returned, _) = visit_units-Ends p 0 us m plain v in
      let ended = ap (λ x. x.0) walk ∙ returned in
      (ended, read_cu_list-resolves g p rounds n us m shown small bound v numbered ended few)
