-- ===== src/Parser/Walk.antt =====
-- The walk over the compilation units and their entries: `read_cu_list` and `get_die_and_siblings`
-- of `DwarfParser` (libdwarfparser/dwarfparser.cpp). An entry has a handle, by which libdwarf gives
-- what it knows of it. The level of an entry and the source files are printed only and are left out.
pub mod Preorder
mod Tests
use libdwarfparser.Prelude.{ℕ, zero, suc, ◌+◌, ◌≤◌, ◌≡◌, refl, List, [], ◌∷◌, arith}
use libdwarfparser.Outcome.{exits, out_of_fuel}
use libdwarfparser.Symbols.{Pointer}
use libdwarfparser.Manager.{SymbolManager, Method, pure, raise, continue, ◌>>=◌, ◌>>◌}
use libdwarfparser.Parser.{Parser, Die, Answer, dlv_error, dlv_no_entry, dlv_ok}
use libdwarfparser.Parser.Init.{init_symbol_from_die}

-- What libdwarf answers on the entries, and to the `k`-th question for a unit: the offset of the
-- unit behind it, and the entry that stands for it.
pub record Debug : Type 0 where
  pub die : ℕ → Die
  pub child : ℕ → Answer ℕ
  pub sibling : ℕ → Answer ℕ
  pub next_cu_header : ℕ → Answer ℕ
  pub cu_die : ℕ → Answer ℕ

-- What follows a question for an entry: an error ends the program, and no entry ends nothing.
abbrev pub on_answer : Answer ℕ → (ℕ → Method (Unit {0})) → Method (Unit {0})
on_answer dlv_error f = raise exits
on_answer dlv_no_entry f = pure tt
on_answer (dlv_ok h) f = f h

module _ (g : Debug) where
  -- The loop of `get_die_and_siblings` from the entry `cur` on, whose symbol is `cursym`. The
  -- call for the first child is written out.
  unfoldable pub entry_loop : Parser → ℕ → ℕ → Pointer → Pointer → Method (Unit {0})
  unfolding init_symbol_from_die
  entry_loop p zero cur cursym parent = raise out_of_fuel
  entry_loop p (suc n) cur cursym parent =
      on_answer (g.child cur) (λ c.
        init_symbol_from_die p (g.die c) cursym >>= λ child_sym. entry_loop p n c child_sym cursym)
      >> on_answer (g.sibling cur) (λ s.
        init_symbol_from_die p (g.die s) parent >>= λ cursym'. entry_loop p n s cursym' parent)

  unfoldable pub get_die_and_siblings : Parser → ℕ → ℕ → Pointer → Method (Unit {0})
  unfolding init_symbol_from_die entry_loop
  get_die_and_siblings p n h parent =
      init_symbol_from_die p (g.die h) parent >>= λ cursym. entry_loop p n h cursym parent

  -- The loop of `read_cu_list` before its `k`-th question, where `next` is `nextCUOffset`. The first
  -- number bounds its rounds, the second those of the walk through each unit.
  unfoldable pub read_units : Parser → ℕ → ℕ → ℕ → ℕ → Method (Unit {0})
  unfolding get_die_and_siblings
  read_units p zero n k next = raise out_of_fuel
  read_units p (suc rounds) n k next = elim (g.next_cu_header k) [
    | dlv_error ↦ raise exits
    | dlv_no_entry ↦ pure tt
    | dlv_ok next' ↦ elim (g.cu_die k) [
      | dlv_error ↦ raise exits
      | dlv_no_entry ↦ raise exits
      | dlv_ok h ↦
          get_die_and_siblings (record p { cur_cu_offset = next }) n h 0
          >> read_units p rounds n (suc k) next'
    ]
  ]

  unfoldable pub read_cu_list : Parser → ℕ → ℕ → Method (Unit {0})
  unfolding read_units
  read_cu_list p rounds n = read_units p rounds n 0 0
