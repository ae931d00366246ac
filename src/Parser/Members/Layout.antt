-- ===== src/Parser/Members/Layout.antt =====
-- The members that `Structured::addMember` enters, as `memberByName` finds them
-- (libdwarfparser/structured.cpp).
use libdwarfparser.Prelude.{
  ℕ, ◌+◌, ◌≡◌, ◌≢◌, ◌≤◌, ◌<◌, refl, sym, subst, ap, ◌∙◌, inl, inr, String, false, Option, none,
  some, ◌==◌, nat_eq, nat_beq_iff, string_eq, eq_iff, if◌then◌else◌, arith, Bool-cases,
  Option-cases, or_else,
}
use libdwarfparser.Outcome.{ok}
use libdwarfparser.Map.{Map, find, assign, find-assign}
use libdwarfparser.Ids.{u64}
use libdwarfparser.Symbols.{
  Symbol, Pointer, Reference, MemberData, StructKind, base_type, structured, member, as_structured,
}
use libdwarfparser.Manager.{SymbolManager, continue}
use libdwarfparser.Navigate.Containers.{modify_lem}
use libdwarfparser.Parser.{Parser, Die}
use libdwarfparser.Parser.Objects.{modify, with_members, add_member}
use libdwarfparser.Parser.Members.Agrees.{
  Agrees, Agrees-frame, Agrees-known, Agrees-new, Agrees-again,
}
use libdwarfparser.Parser.Members.{Built, IsMember, kept_location, new_member-Built}

-- The members of a structure or union are at the locations that a function tells for their names.
pub record IsLaid (m : SymbolManager) (t : Pointer) (locations : String → Option ℕ) : Type 0 where
  pub symbol : Symbol
  pub encoding : ℕ
  pub kind : StructKind
  pub members : Map String Pointer
  pub at : find m.heap.cells t ≡ some symbol
  pub is_structured : symbol.kind ≡ base_type encoding (structured kind members)
  pub fresh : (j : Pointer) (s : Symbol) → find m.heap.cells j ≡ some s → j < m.heap.next
  pub agrees : (name : String) → Agrees m (find members name) (locations name)

-- One member more, unless there is one of the name.
abbrev pub with_location_of : (String → Option ℕ) → String → ℕ → String → Option ℕ
with_location_of locations name l x = or_else (locations x) (if name == x then some l else none)

module _ (p : Parser) (d : Die) (name : String) (t : Pointer) (m : SymbolManager)
    (locations : String → Option ℕ) (v : IsLaid m t locations) (e : IsMember p d) where
  abbrev locations' : String → Option ℕ
  locations' = with_location_of locations name (kept_location d e.location)

  known_member :
      (q : Pointer)
      → find v.members name ≡ some q
      → (add_member p d name t m ≡ (ok q, m)) × IsLaid m t locations'
  unfolding add_member as_structured
  known_member q known = (
    rw (v.at, v.is_structured, continue, known) refl,
    record {
      symbol = v.symbol;
      encoding = v.encoding;
      kind = v.kind;
      members = v.members;
      at = v.at;
      is_structured = v.is_structured;
      fresh = v.fresh;
      agrees = λ x. elim (Bool-cases (name == x)) [
        | inr other ↦ rw other (Agrees-again m (find v.members x) (locations x) (v.agrees x))
        | inl same ↦ rw same (
            Agrees-known m (find v.members x) q (locations x) (some (kept_location d e.location))
              (subst (λ y. find v.members y ≡ some q) ((eq_iff name x).0 same) known) (v.agrees x))
      ];
    },
  )

  -- What entering a new object leaves behind.
  module _ (m1 : SymbolManager) (s : Symbol) (r : Reference) (fields : MemberData)
      (b : Built m m1 m.heap.next (record s { kind = member r fields }))
      (placed : fields.member_location ≡ kept_location d e.location)
      (new : find v.members name ≡ none) where
    abbrev next : Pointer
    next = m.heap.next

    abbrev members' : Map String Pointer
    members' = assign v.members name next

    abbrev symbol' : Symbol
    symbol' = record v.symbol { kind = base_type v.encoding (structured v.kind members') }

    abbrev entered : SymbolManager
    entered = record m1 { heap = record m1.heap { cells = assign m1.heap.cells t symbol' } }

    old : (j : Pointer) (x : Symbol) → find m.heap.cells j ≡ some x → (next == j) ≡ false
    old j x at = ground (arith, v.fresh j x at, nat_beq_iff next j)

    still_structured : find m1.heap.cells t ≡ some v.symbol
    still_structured = ground (arith, b.cells t, old t v.symbol v.at, v.at)

    entered_run : modify t (with_members (λ ms. assign ms name next)) m1 ≡ (ok tt, entered)
    entered_run =
        modify_lem t (with_members (λ ms. assign ms name next)) m1 v.symbol still_structured
        ∙ ap
            (λ k. (
              ok tt,
              record m1 {
                heap = record m1.heap {
                  cells =
                      assign m1.heap.cells t
                        (record v.symbol { kind = with_members (λ ms. assign ms name next) k });
                };
              },
            ))
            v.is_structured

    entered_cells :
        (j : Pointer)
        → find entered.heap.cells j ≡ (
            if t == j
            then some symbol'
            else if next == j
            then some (record s { kind = member r fields })
            else find m.heap.cells j)
    entered_cells j = ground (arith, find-assign m1.heap.cells t j symbol', b.cells j)

    new_there : find entered.heap.cells next ≡ some (record s { kind = member r fields })
    new_there = ground (
      arith,
      entered_cells next,
      old t v.symbol v.at,
      nat_beq_iff next next,
      nat_beq_iff t next,
      nat_beq_iff next t,
    )

    keeps_member :
        (q : Pointer) (x : Symbol) (r' : Reference) (fields' : MemberData)
        → find m.heap.cells q ≡ some x
        → x.kind ≡ member r' fields'
        → find entered.heap.cells q ≡ some x
    keeps_member q x r' fields' at is_member = elim (Bool-cases (t == q)) [
      | inl same ↦
          let here : find m.heap.cells t ≡ some x =
            subst (λ j. find m.heap.cells j ≡ some x) (sym ((nat_beq_iff t q).0 same)) at in
          absurd (ground (arith, v.at, here, v.is_structured, is_member))
      | inr other ↦ ground (arith, entered_cells q, old q x at)
    ]

    entered_fresh :
        (j : Pointer) (x : Symbol) → find entered.heap.cells j ≡ some x → j < entered.heap.next
    entered_fresh j x at = elim (Bool-cases (t == j)) [
      | inl same ↦ ground (arith, nat_beq_iff t j, v.fresh t v.symbol v.at, b.next)
      | inr other ↦ elim (Bool-cases (next == j)) [
        | inl same ↦ ground (arith, nat_beq_iff next j, b.next)
        | inr older ↦ ground (arith, entered_cells j, v.fresh j x, b.next)
      ]
    ]

    entered-IsLaid : IsLaid entered t locations'
    entered-IsLaid = record {
      symbol = symbol';
      encoding = v.encoding;
      kind = v.kind;
      members = members';
      at = ground (arith, entered_cells t, nat_beq_iff t t);
      is_structured = refl;
      fresh = entered_fresh;
      agrees = λ x. elim (Bool-cases (name == x)) [
        | inr other ↦
            rw (find-assign v.members name x next, other)
              (Agrees-again entered (find v.members x) (locations x)
                (Agrees-frame m entered (find v.members x) (locations x) keeps_member (v.agrees x)))
        | inl same ↦
            rw (find-assign v.members name x next, same)
              (Agrees-new m entered (find v.members x) next (locations x)
                (kept_location d e.location)
                (subst (λ y. find v.members y ≡ none) ((eq_iff name x).0 same) new) (v.agrees x)
                (record s { kind = member r fields }, r, fields, new_there, refl, placed))
      ];
    }

  new_member_entered :
      t ≢ 0
      → m.ids.current_id + 2 < u64
      → find v.members name ≡ none
      → (m' : SymbolManager) × (add_member p d name t m ≡ (ok m.heap.next, m'))
        × IsLaid m' t locations'
        × (m'.ids.current_id ≤ m.ids.current_id + 2)
  unfolding add_member as_structured
  new_member_entered real room new =
      let (m1, s, r, fields, made, b, placed) = new_member-Built p d name t m e real room in
      (
        entered m1 s r fields b placed new,
        rw (v.at, v.is_structured, continue, new, made, entered_run m1 s r fields b placed new)
            refl,
        entered-IsLaid m1 s r fields b placed new,
        b.room,
      )

  -- `addMember` returns, and the structure has the member, at its location, unless it had one of the
  -- name; the other members stay.
  pub add_member-IsLaid :
      t ≢ 0
      → m.ids.current_id + 2 < u64
      → (q : Pointer) × (m' : SymbolManager) × (add_member p d name t m ≡ (ok q, m'))
        × IsLaid m' t locations'
        × (m'.ids.current_id ≤ m.ids.current_id + 2)
  add_member-IsLaid real room = elim (Option-cases (find v.members name)) [
    | inl new ↦
        let (m', run, laid, few) = new_member_entered real room new in
        (m.heap.next, m', run, laid, few)
    | inr (q, known) ↦ let (run, laid) = known_member q known in (q, m, run, laid, omega arith)
  ]
