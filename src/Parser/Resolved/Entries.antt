-- ===== src/Parser/Resolved/Entries.antt =====
-- Which entries make symbols that can be looked up by the identifiers of the entries afterwards
-- (libdwarfparser/dwarfparser.cpp).
use libdwarfparser.Prelude.{
  refl, String, Bool, true, false, not, none, some, [], Bool-cases, inl, inr, nat_eq,
}
use libdwarfparser.Outcome.{dwarf_exception}
use libdwarfparser.Symbols.{
  Kind, TypeKind, RefKind, Pointer, base_type, variable, structured, struct, union, plain,
  enumeration, function, ref_base_type, array, as_base_type, as_enum, as_function,
}
use libdwarfparser.Manager.{SymbolManager, Method, pure, raise, lift, ◌>>=◌, ◌>>◌}
use libdwarfparser.Manager.Lookup.{holds}
use libdwarfparser.Manager.Sound.Keeps.{constructing-Keeps, Keeps, lift-Keeps}
use libdwarfparser.Manager.Sound.Establishes.{
  Establishes, Extends-Grown, first-Establishes, before-Establishes, after-Establishes,
  option-Establishes, nothing-Establishes, raise-Establishes,
}
use libdwarfparser.Manager.Sound.Register.{find_class_by_name-Keeps, find_variable_by_name-Keeps}
use libdwarfparser.Parser.{
  Parser, Die, Tag, Answer, dlv_ok, dlv_error, dlv_no_entry, die_has_attr, get_die_name,
}
use libdwarfparser.Parser.Objects.{
  at_specification, new_symbol, new_base_type, new_ref_base_type, new_pointer, new_array,
  new_function, new_variable, update_function, update_variable,
}
use libdwarfparser.Parser.Init.{
  is_struct, is_union, no_update, known_again, get_type_instance, get_variable_instance,
  init_by_tag, init_symbol_from_die,
}
use libdwarfparser.Parser.Resolved.{
  IsResolved, IsResolved-IsLasting, new_symbol-IsResolved, known_again-IsResolved,
}
use libdwarfparser.Manager.Register.{add_array}
use libdwarfparser.Manager.Names.{find_class_by_name, find_variable_by_name}
use libdwarfparser.Manager.Sound.Extends.{Extends, Extends-same}
use libdwarfparser.Parser.Sound.{
  new_symbol-Keeps, new_base_type-Keeps, new_ref_base_type-Keeps, new_pointer-Keeps,
  base_type_rest-Keeps, ref_type_rest-Keeps, pointer_rest-Keeps,
}
use libdwarfparser.Parser.Sound.Updates.{
  function_rest-Keeps, variable_rest-Keeps, update_function-Keeps, update_variable-Keeps,
}
use libdwarfparser.Parser.Sound.Entries.{no_update-Keeps}

-- The entries of types that are no references, of functions and arrays, and of variables that are no
-- later specification of another.
abbrev pub makes : Die → Tag → Bool
makes d Tag.structure_type = true
makes d Tag.union_type = true
makes d Tag.base_type = true
makes d Tag.enumeration_type = true
makes d Tag.subprogram = true
makes d Tag.array_type = true
makes d Tag.variable = not (die_has_attr d at_specification)
makes d _ = false

abbrev pub made_by : Die → Answer Tag → Bool
made_by d (dlv_ok tag) = makes d tag
made_by d dlv_error = false
made_by d dlv_no_entry = false

abbrev pub makes_symbol : Die → Bool
makes_symbol d = made_by d d.tag

-- What holds where a test does.
abbrev pub When : Bool → Type 0 → Type 0
When true P = P
When false P = Unit

module _ (p : Parser) (d : Die) where
  -- A constructor of a subclass: that of its base class, and what follows it.
  subclass-IsResolved :
      {A : Type 0} (r : Method Pointer) (f : Pointer → Method A)
      → Establishes (IsResolved p d) r
      → Keeps r
      → ((q : Pointer) → Keeps (f q))
      → Establishes (IsResolved p d) (r >>= f)
  subclass-IsResolved r f h k kf =
      before-Establishes (IsResolved p d) r f (IsResolved-IsLasting p d) h k kf

  new_base_type-IsResolved :
      (name : String) (t : TypeKind) → Establishes (IsResolved p d) (new_base_type p d name t)
  unfolding new_base_type
  new_base_type-IsResolved name t =
      subclass-IsResolved (new_symbol p d name (base_type 0 t)) _
        (new_symbol-IsResolved p d name (base_type 0 t)) (new_symbol-Keeps p d name (base_type 0 t))
        (λ q. constructing-Keeps q (base_type_rest-Keeps p d q))

  new_ref_base_type-IsResolved :
      (name : String) (k : RefKind) → Establishes (IsResolved p d) (new_ref_base_type p d name k)
  unfolding new_ref_base_type
  new_ref_base_type-IsResolved name k =
      let t = ref_base_type (record { type = some 0; base = none }) k in
      subclass-IsResolved (new_base_type p d name t) _ (new_base_type-IsResolved name t)
        (new_base_type-Keeps p d name t) (λ q. constructing-Keeps q (ref_type_rest-Keeps p d q))

  new_pointer-IsResolved :
      (name : String) (k : RefKind) → Establishes (IsResolved p d) (new_pointer p d name k)
  unfolding new_pointer
  new_pointer-IsResolved name k =
      subclass-IsResolved (new_ref_base_type p d name k) _ (new_ref_base_type-IsResolved name k)
        (new_ref_base_type-Keeps p d name k) pointer_rest-Keeps

  array_rest-Extends : (q : Pointer) (m : SymbolManager) → Extends m ((add_array q >> pure q) m).1
  unfolding add_array
  array_rest-Extends q m = elim (Bool-cases m.array_vector_locked) [
    | inl locked ↦ rw locked (Extends-same _ _ refl refl refl refl)
    | inr open_ ↦ rw open_ (Extends-same _ _ refl refl refl refl)
  ]

  new_array-IsResolved : (name : String) → Establishes (IsResolved p d) (new_array p d name)
  unfolding new_array
  new_array-IsResolved name =
      let k = array (record { length = 0; length_type = 0 }) in
      first-Establishes (IsResolved p d) (new_pointer p d name k) (λ q. add_array q >> pure q)
        (IsResolved-IsLasting p d) (new_pointer-IsResolved name k) (new_pointer-Keeps p d name k)
        (λ q m v. Extends-Grown ((add_array q >> pure q) m) m (array_rest-Extends q m))

  new_function-IsResolved : (name : String) → Establishes (IsResolved p d) (new_function p d name)
  unfolding new_function
  new_function-IsResolved name =
      let t =
        function (record { rettype = 0; address = 0; param_list = []; params_final = false }) in
      subclass-IsResolved (new_base_type p d name t) _ (new_base_type-IsResolved name t)
        (new_base_type-Keeps p d name t) (λ q. constructing-Keeps q (function_rest-Keeps p d q))

  new_variable-IsResolved : (name : String) → Establishes (IsResolved p d) (new_variable p d name)
  unfolding new_variable
  new_variable-IsResolved name =
      let k = variable (record { type = none; base = none }) 0 in
      subclass-IsResolved (new_symbol p d name k) _ (new_symbol-IsResolved p d name k)
        (new_symbol-Keeps p d name k) (λ q. constructing-Keeps q (variable_rest-Keeps p d q))

  -- A symbol that is known, after an update.
  updated-IsResolved :
      (q : Pointer) (r : Method (Unit {0}))
      → Keeps r
      → Establishes (IsResolved p d) (r >> known_again p d q)
  updated-IsResolved q r k =
      after-Establishes (IsResolved p d) r (λ _. known_again p d q) k
        (λ _. known_again-IsResolved p d q)

  type_instance-IsResolved :
      (cast : Kind → Bool) (new : Method Pointer) (update : Pointer → Method (Unit {0}))
      (name : String)
      → Establishes (IsResolved p d) new
      → ((q : Pointer) → Keeps (update q))
      → Establishes (IsResolved p d) (get_type_instance cast new update p d name)
  unfolding get_type_instance
  type_instance-IsResolved cast new update name h k =
      after-Establishes (IsResolved p d) (find_class_by_name cast name) _
        (find_class_by_name-Keeps cast name)
        (λ o.
          option-Establishes (IsResolved p d) o new _ h
            (λ q. updated-IsResolved q (update q) (k q)))

  variable_instance-IsResolved :
      (name : String) → Establishes (IsResolved p d) (get_variable_instance p d name)
  unfolding get_variable_instance
  variable_instance-IsResolved name =
      after-Establishes (IsResolved p d) (find_variable_by_name name) _
        (find_variable_by_name-Keeps name)
        (λ o.
          option-Establishes (IsResolved p d) o (new_variable p d name) _
            (new_variable-IsResolved name)
            (λ q. updated-IsResolved q (update_variable p d q) (update_variable-Keeps p d q)))

  init_by_tag-IsResolved :
      (parent : Pointer) (name : String) (t : Tag)
      → Establishes (λ m. When (makes d t) (IsResolved p d m)) (init_by_tag p d parent name t)
  unfolding init_by_tag
  init_by_tag-IsResolved parent name Tag.typedef =
      nothing-Establishes (init_by_tag p d parent name Tag.typedef)
  init_by_tag-IsResolved parent name Tag.structure_type =
      type_instance-IsResolved is_struct _ no_update name
        (new_base_type-IsResolved name (structured struct [])) no_update-Keeps
  init_by_tag-IsResolved parent name Tag.union_type =
      type_instance-IsResolved is_union _ no_update name
        (new_base_type-IsResolved name (structured union [])) no_update-Keeps
  init_by_tag-IsResolved parent name Tag.member =
      nothing-Establishes (init_by_tag p d parent name Tag.member)
  init_by_tag-IsResolved parent name Tag.base_type =
      type_instance-IsResolved (λ k. holds (as_base_type k)) _ no_update name
        (new_base_type-IsResolved name plain) no_update-Keeps
  init_by_tag-IsResolved parent name Tag.pointer_type =
      nothing-Establishes (init_by_tag p d parent name Tag.pointer_type)
  init_by_tag-IsResolved parent name Tag.const_type =
      nothing-Establishes (init_by_tag p d parent name Tag.const_type)
  init_by_tag-IsResolved parent name Tag.enumeration_type =
      type_instance-IsResolved (λ k. holds (as_enum k)) _ no_update name
        (new_base_type-IsResolved name (enumeration [])) no_update-Keeps
  init_by_tag-IsResolved parent name Tag.enumerator =
      nothing-Establishes (init_by_tag p d parent name Tag.enumerator)
  init_by_tag-IsResolved parent name Tag.variable =
      elim (Bool-cases (die_has_attr d at_specification)) [
        | inl later ↦ rw (later, init_by_tag) (nothing-Establishes (pure 0))
        | inr first ↦ rw (first, init_by_tag) (variable_instance-IsResolved name)
      ]
  init_by_tag-IsResolved parent name Tag.array_type = new_array-IsResolved name
  init_by_tag-IsResolved parent name Tag.subrange_type =
      nothing-Establishes (init_by_tag p d parent name Tag.subrange_type)
  init_by_tag-IsResolved parent name Tag.subprogram =
      type_instance-IsResolved (λ k. holds (as_function k)) _ (update_function p d) name
        (new_function-IsResolved name) (update_function-Keeps p d)
  init_by_tag-IsResolved parent name Tag.formal_parameter =
      nothing-Establishes (init_by_tag p d parent name Tag.formal_parameter)
  init_by_tag-IsResolved parent name Tag.compile_unit =
      nothing-Establishes (init_by_tag p d parent name Tag.compile_unit)
  init_by_tag-IsResolved parent name Tag.namespace =
      nothing-Establishes (init_by_tag p d parent name Tag.namespace)
  init_by_tag-IsResolved parent name Tag.imported_declaration =
      nothing-Establishes (init_by_tag p d parent name Tag.imported_declaration)
  init_by_tag-IsResolved parent name Tag.class_type =
      nothing-Establishes (init_by_tag p d parent name Tag.class_type)
  init_by_tag-IsResolved parent name Tag.lexical_block =
      nothing-Establishes (init_by_tag p d parent name Tag.lexical_block)
  init_by_tag-IsResolved parent name Tag.other_tag =
      nothing-Establishes (init_by_tag p d parent name Tag.other_tag)

  answer-IsResolved :
      (parent : Pointer) (a : Answer Tag)
      → Establishes {A = Pointer}
          (λ m. When (made_by d a) (IsResolved p d m))
          (elim a [
            | dlv_ok tag ↦ lift (get_die_name d) >>= λ name. init_by_tag p d parent name tag
            | _ ↦ raise (dwarf_exception "Error in dwarf_get_TAG_name")
          ])
  answer-IsResolved parent (dlv_ok tag) =
      after-Establishes (λ m. When (makes d tag) (IsResolved p d m)) (lift (get_die_name d))
        (λ name. init_by_tag p d parent name tag) (lift-Keeps (get_die_name d))
        (λ name. init_by_tag-IsResolved parent name tag)
  answer-IsResolved parent dlv_error =
      raise-Establishes (λ m. Unit) (dwarf_exception "Error in dwarf_get_TAG_name")
  answer-IsResolved parent dlv_no_entry =
      raise-Establishes (λ m. Unit) (dwarf_exception "Error in dwarf_get_TAG_name")

  -- An entry.
  pub init_symbol_from_die-IsResolved :
      (parent : Pointer)
      → Establishes
          (λ m. When (makes_symbol d) (IsResolved p d m))
          (init_symbol_from_die p d parent)
  unfolding init_symbol_from_die
  init_symbol_from_die-IsResolved parent = answer-IsResolved parent d.tag
