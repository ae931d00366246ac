-- ===== src/Parser/Sound/Entries.antt =====
-- An entry, and the walk over all of them, keep the containers of `SymbolManager` sound
-- (libdwarfparser/dwarfparser.cpp).
use libdwarfparser.Prelude.{◌≡◌, ℕ, zero, suc, String, Bool, true, false, [], ◌==◌, nat_eq}
use libdwarfparser.Outcome.{ok, assertion, dwarf_exception, exits, out_of_fuel}
use libdwarfparser.Symbols.{
  Kind, Pointer, structured, struct, union, plain, enumeration, pointer, const_type, typedef,
  as_base_type, as_function, as_enum, as_structured, as_pointer, as_array,
}
use libdwarfparser.Manager.{SymbolManager, Method, pure, raise, lift, ◌>>=◌, ◌>>◌}
use libdwarfparser.Manager.Lookup.{holds}
use libdwarfparser.Manager.Sound.{IsSound}
use libdwarfparser.Manager.Sound.Keeps.{
  kept, Keeps, pure-Keeps, raise-Keeps, lift-Keeps, bind-Keeps, deref-Keeps,
}
use libdwarfparser.Manager.Sound.Register.{
  find_class_by_name-Keeps, find_ref_base_type_by_name-Keeps, find_variable_by_name-Keeps,
}
use libdwarfparser.Parser.{
  Parser, Die, Tag, Answer, dlv_error, dlv_no_entry, dlv_ok, die_has_attr, get_die_name,
  get_die_offset,
}
use libdwarfparser.Parser.Print.{print_die_data}
use libdwarfparser.Parser.Objects.{at_specification, update_function}
use libdwarfparser.Parser.Init.{
  is_struct, is_union, is_const, is_typedef, known_again, get_ref_type_instance, get_type_instance,
  get_variable_instance, casts_to, no_update, in_parent, init_by_tag, init_symbol_from_die,
}
use libdwarfparser.Parser.Walk.{
  Debug, on_answer, entry_loop, get_die_and_siblings, read_units, read_cu_list,
}
use libdwarfparser.Parser.Sound.{
  new_base_type-Keeps, new_ref_base_type-Keeps, new_pointer-Keeps, new_array-Keeps,
  add_alternative_dwarf_id-Keeps,
}
use libdwarfparser.Parser.Sound.Updates.{
  option-Keeps, if-Keeps, update_array-Keeps, update_function-Keeps, add_param-Keeps,
  new_function-Keeps, new_variable-Keeps, update_variable-Keeps, add_member-Keeps, add_enum-Keeps,
}

cases-Keeps :
    {B : Type 0} (b : Bool) (r k : Method B)
    → Keeps r
    → Keeps k
    → Keeps (elim b [ true ↦ r | false ↦ k ])
cases-Keeps true r k h h' = h
cases-Keeps false r k h h' = h'

pub known_again-Keeps : (p : Parser) (d : Die) (q : Pointer) → Keeps (known_again p d q)
unfolding known_again
known_again-Keeps p d q =
    bind-Keeps (lift-Keeps (get_die_offset p d))
      (λ offset. bind-Keeps (add_alternative_dwarf_id-Keeps q offset p.file_id) (λ _. pure-Keeps q))

ref_instance-Keeps :
    (cast : Kind → Bool) (new : Method Pointer) (p : Parser) (d : Die) (name : String)
    → Keeps new
    → Keeps (get_ref_type_instance cast new p d name)
unfolding get_ref_type_instance
ref_instance-Keeps cast new p d name h = bind-Keeps (find_ref_base_type_by_name-Keeps name) (λ o.
    option-Keeps o new _ h (λ q. bind-Keeps (deref-Keeps q) (λ s.
      cases-Keeps (cast s.kind) (known_again p d q) (lift (get_die_offset p d) >>= λ _. pure 0)
        (known_again-Keeps p d q)
        (bind-Keeps (lift-Keeps (get_die_offset p d)) (λ _. pure-Keeps 0)))))

type_instance-Keeps :
    (cast : Kind → Bool) (new : Method Pointer) (update : Pointer → Method (Unit {0})) (p : Parser)
    (d : Die) (name : String)
    → Keeps new
    → ((q : Pointer) → Keeps (update q))
    → Keeps (get_type_instance cast new update p d name)
unfolding get_type_instance
type_instance-Keeps cast new update p d name h k =
    bind-Keeps (find_class_by_name-Keeps cast name)
      (λ o. option-Keeps o new _ h (λ q. bind-Keeps (k q) (λ _. known_again-Keeps p d q)))

pub no_update-Keeps : (q : Pointer) → Keeps (no_update q)
no_update-Keeps q = pure-Keeps tt

variable_instance-Keeps :
    (p : Parser) (d : Die) (name : String) → Keeps (get_variable_instance p d name)
unfolding get_variable_instance
variable_instance-Keeps p d name = bind-Keeps (find_variable_by_name-Keeps name) (λ o.
    option-Keeps o _ _ (new_variable-Keeps p d name)
      (λ q. bind-Keeps (update_variable-Keeps p d q) (λ _. known_again-Keeps p d q)))

casts_to-Keeps : (cast : Kind → Bool) (q : Pointer) → Keeps (casts_to cast q)
unfolding casts_to
casts_to-Keeps cast q =
    if-Keeps (q == 0) (pure false) _ (pure-Keeps false)
      (bind-Keeps (deref-Keeps q) (λ s. pure-Keeps (cast s.kind)))

in_parent-Keeps :
    (cast : Kind → Bool) (parent : Pointer) (here otherwise : Method Pointer)
    → Keeps here
    → Keeps otherwise
    → Keeps (in_parent cast parent here otherwise)
unfolding in_parent
in_parent-Keeps cast parent here otherwise h k =
    bind-Keeps (casts_to-Keeps cast parent) (λ b. if-Keeps b here otherwise h k)

-- The symbol of an entry that stands in its parent is null.
then_null-Keeps : (r : Method (Unit {0})) → Keeps r → Keeps {A = Pointer} (r >> pure 0)
then_null-Keeps r h = bind-Keeps h (λ _. pure-Keeps 0)

printed-Keeps : (p : Parser) (d : Die) → Keeps {A = Pointer} (lift (print_die_data p d) >> pure 0)
printed-Keeps p d = then_null-Keeps (lift (print_die_data p d)) (lift-Keeps (print_die_data p d))

pub init_by_tag-Keeps :
    (p : Parser) (d : Die) (parent : Pointer) (name : String) (t : Tag)
    → Keeps (init_by_tag p d parent name t)
unfolding init_by_tag
init_by_tag-Keeps p d parent name Tag.typedef =
    ref_instance-Keeps is_typedef _ p d name (new_ref_base_type-Keeps p d name typedef)
init_by_tag-Keeps p d parent name Tag.structure_type =
    type_instance-Keeps is_struct _ no_update p d name
      (new_base_type-Keeps p d name (structured struct [])) no_update-Keeps
init_by_tag-Keeps p d parent name Tag.union_type =
    type_instance-Keeps is_union _ no_update p d name
      (new_base_type-Keeps p d name (structured union [])) no_update-Keeps
init_by_tag-Keeps p d parent name Tag.member =
    in_parent-Keeps (λ k. holds (as_structured k)) parent _ (pure 0)
      (add_member-Keeps p d name parent) (pure-Keeps 0)
init_by_tag-Keeps p d parent name Tag.base_type =
    type_instance-Keeps (λ k. holds (as_base_type k)) _ no_update p d name
      (new_base_type-Keeps p d name plain) no_update-Keeps
init_by_tag-Keeps p d parent name Tag.pointer_type =
    ref_instance-Keeps (λ k. holds (as_pointer k)) _ p d name (new_pointer-Keeps p d name pointer)
init_by_tag-Keeps p d parent name Tag.const_type =
    ref_instance-Keeps is_const _ p d name (new_ref_base_type-Keeps p d name const_type)
init_by_tag-Keeps p d parent name Tag.enumeration_type =
    type_instance-Keeps (λ k. holds (as_enum k)) _ no_update p d name
      (new_base_type-Keeps p d name (enumeration [])) no_update-Keeps
init_by_tag-Keeps p d parent name Tag.enumerator =
    if-Keeps (parent == 0) (raise assertion) _ (raise-Keeps assertion) (
      in_parent-Keeps (λ k. holds (as_enum k)) parent _ _
        (then_null-Keeps _ (add_enum-Keeps p d name parent)) (printed-Keeps p d))
init_by_tag-Keeps p d parent name Tag.variable =
    if-Keeps (die_has_attr d at_specification) (pure 0) _ (pure-Keeps 0)
      (variable_instance-Keeps p d name)
init_by_tag-Keeps p d parent name Tag.array_type = new_array-Keeps p d name
init_by_tag-Keeps p d parent name Tag.subrange_type =
    if-Keeps (parent == 0) (raise assertion) _ (raise-Keeps assertion) (
      in_parent-Keeps (λ k. holds (as_array k)) parent _ _
        (then_null-Keeps _ (update_array-Keeps p d parent)) (printed-Keeps p d))
init_by_tag-Keeps p d parent name Tag.subprogram =
    type_instance-Keeps (λ k. holds (as_function k)) _ (update_function p d) p d name
      (new_function-Keeps p d name) (update_function-Keeps p d)
init_by_tag-Keeps p d parent name Tag.formal_parameter =
    in_parent-Keeps (λ k. holds (as_function k)) parent _ (pure 0)
      (then_null-Keeps _ (add_param-Keeps p d parent)) (pure-Keeps 0)
init_by_tag-Keeps p d parent name Tag.compile_unit = pure-Keeps 0
init_by_tag-Keeps p d parent name Tag.namespace = pure-Keeps 0
init_by_tag-Keeps p d parent name Tag.imported_declaration = pure-Keeps 0
init_by_tag-Keeps p d parent name Tag.class_type = pure-Keeps 0
init_by_tag-Keeps p d parent name Tag.lexical_block = pure-Keeps 0
init_by_tag-Keeps p d parent name Tag.other_tag = named d.tag_name
  where
    named :
        (a : Answer String)
        → Keeps {A = Pointer} (elim a [
          | dlv_ok tag_name ↦ pure 0
          | _ ↦ raise (dwarf_exception "Error in dwarf_get_TAG_name")
        ])
    named (dlv_ok tag_name) = pure-Keeps 0
    named dlv_error = raise-Keeps (dwarf_exception "Error in dwarf_get_TAG_name")
    named dlv_no_entry = raise-Keeps (dwarf_exception "Error in dwarf_get_TAG_name")

by_tag_answer-Keeps :
    (p : Parser) (d : Die) (parent : Pointer) (a : Answer Tag)
    → Keeps {A = Pointer} (elim a [
      | dlv_ok tag ↦ lift (get_die_name d) >>= λ name. init_by_tag p d parent name tag
      | _ ↦ raise (dwarf_exception "Error in dwarf_get_TAG_name")
    ])
by_tag_answer-Keeps p d parent (dlv_ok tag) =
    bind-Keeps (lift-Keeps (get_die_name d)) (λ name. init_by_tag-Keeps p d parent name tag)
by_tag_answer-Keeps p d parent dlv_error =
    raise-Keeps (dwarf_exception "Error in dwarf_get_TAG_name")
by_tag_answer-Keeps p d parent dlv_no_entry =
    raise-Keeps (dwarf_exception "Error in dwarf_get_TAG_name")

pub init_symbol_from_die-Keeps :
    (p : Parser) (d : Die) (parent : Pointer) → Keeps (init_symbol_from_die p d parent)
unfolding init_symbol_from_die
init_symbol_from_die-Keeps p d parent = by_tag_answer-Keeps p d parent d.tag

on_answer-Keeps :
    (a : Answer ℕ) (f : ℕ → Method (Unit {0})) → ((h : ℕ) → Keeps (f h)) → Keeps (on_answer a f)
on_answer-Keeps dlv_error f k = raise-Keeps exits
on_answer-Keeps dlv_no_entry f k = pure-Keeps tt
on_answer-Keeps (dlv_ok h) f k = k h

module _ (g : Debug) where
  entry_loop-Keeps :
      (p : Parser) (n cur : ℕ) (cursym parent : Pointer)
      → Keeps (entry_loop g p n cur cursym parent)
  unfolding entry_loop
  entry_loop-Keeps p zero cur cursym parent = raise-Keeps out_of_fuel
  entry_loop-Keeps p (suc n) cur cursym parent =
      bind-Keeps
        (on_answer-Keeps (g.child cur) _ (λ c.
          bind-Keeps (init_symbol_from_die-Keeps p (g.die c) cursym)
            (λ s. entry_loop-Keeps p n c s cursym)))
        (λ _. on_answer-Keeps (g.sibling cur) _ (λ s.
          bind-Keeps (init_symbol_from_die-Keeps p (g.die s) parent)
            (λ s'. entry_loop-Keeps p n s s' parent)))

  get_die_and_siblings-Keeps :
      (p : Parser) (n h : ℕ) (parent : Pointer) → Keeps (get_die_and_siblings g p n h parent)
  unfolding get_die_and_siblings
  get_die_and_siblings-Keeps p n h parent =
      bind-Keeps (init_symbol_from_die-Keeps p (g.die h) parent)
        (λ s. entry_loop-Keeps p n h s parent)

  unit_answers-Keeps :
      (a a' : Answer ℕ) (unit : ℕ → ℕ → Method (Unit {0}))
      → ((x h : ℕ) → Keeps (unit x h))
      → Keeps {A = Unit {0}} (elim a [
        | dlv_error ↦ raise exits
        | dlv_no_entry ↦ pure tt
        | dlv_ok x ↦ elim a' [
          | dlv_error ↦ raise exits
          | dlv_no_entry ↦ raise exits
          | dlv_ok h ↦ unit x h
        ]
      ])
  unit_answers-Keeps dlv_error a' unit k = raise-Keeps exits
  unit_answers-Keeps dlv_no_entry a' unit k = pure-Keeps tt
  unit_answers-Keeps (dlv_ok x) dlv_error unit k = raise-Keeps exits
  unit_answers-Keeps (dlv_ok x) dlv_no_entry unit k = raise-Keeps exits
  unit_answers-Keeps (dlv_ok x) (dlv_ok h) unit k = k x h

  read_units-Keeps : (p : Parser) (rounds n k next : ℕ) → Keeps (read_units g p rounds n k next)
  unfolding read_units
  read_units-Keeps p zero n k next = raise-Keeps out_of_fuel
  read_units-Keeps p (suc rounds) n k next =
      unit_answers-Keeps (g.next_cu_header k) (g.cu_die k)
        (λ x h.
          get_die_and_siblings g (record p { cur_cu_offset = next }) n h 0
          >> read_units g p rounds n (suc k) x)
        (λ x h.
          bind-Keeps (get_die_and_siblings-Keeps (record p { cur_cu_offset = next }) n h 0)
            (λ _. read_units-Keeps p rounds n (suc k) x))

  -- Reading the units of a file, whatever libdwarf answers, leaves containers sound that were sound,
  -- if it returns without an error: every pointer in them leads to an object, every identifier to one
  -- that carries it, and the identifier of every object is entered.
  pub read_cu_list-IsSound :
      (p : Parser) (rounds n : ℕ) (m : SymbolManager)
      → IsSound m
      → (read_cu_list g p rounds n m).0 ≡ ok tt
      → IsSound (read_cu_list g p rounds n m).1
  unfolding read_cu_list
  read_cu_list-IsSound p rounds n m v returned =
      (kept (read_units-Keeps p rounds n 0 0) m tt v returned).0
