-- ===== src/Parser/Returns.antt =====
-- Which entries are read without an error (libdwarfparser/dwarfparser.cpp).
pub mod Units
use libdwarfparser.Prelude.{
  ℕ, suc, ◌≡◌, refl, ap, ◌∙◌, sym, ◌⊎◌, String, Bool, true, false, Option, none, some, List, [],
  ◌∷◌, ◌==◌, ◌%◌, nat_eq, string_eq, All, Bool-cases, Option-cases, inl, inr, if◌then◌else◌, arith,
}
use libdwarfparser.Outcome.{Failure, Outcome, ok, fail, dwarf_exception}
use libdwarfparser.Map.{find, find-assign_own}
use libdwarfparser.Ids
use libdwarfparser.Symbols.{
  Symbol, Kind, TypeKind, Pointer, base_type, structured, struct, union, plain, enumeration,
  as_base_type, as_enum,
}
use libdwarfparser.Manager.{
  constructing, on_throw, SymbolManager, Heap, Multimap, Method, pure, lift, continue, ◌>>=◌, ◌>>◌,
}
use libdwarfparser.Manager.Lookup.{holds}
use libdwarfparser.Manager.Register.{add_base_type}
use libdwarfparser.Manager.Names.{equal_range, first_of_class, find_class_by_name}
use libdwarfparser.Manager.Sound.{IsSound, IsLive, AllLive}
use libdwarfparser.Parser.{
  Parser, Die, Tag, Answer, Attribute, dlv_ok, dlv_error, dlv_no_entry, form_data, die_has_attr,
  get_attribute, get_die_name, get_die_offset, get_die_byte_size, get_die_attribute_number,
}
use libdwarfparser.Parser.Objects.{
  at_encoding, when, number, with_encoding, modify, new_symbol, new_base_type,
}
use libdwarfparser.Parser.Registered.{registered, symbol_of, new_symbol_lem}
use libdwarfparser.Parser.Init.{
  is_struct, is_union, no_update, known_again, get_type_instance, init_by_tag, init_symbol_from_die,
}

-- The run returns a value, of which something holds with the manager that it leaves.
abbrev pub Ends : {A : Type 0} → Method A → SymbolManager → (A → SymbolManager → Type 0) → Type 0
Ends {A} r m Q = (a : A) × ((r m).0 ≡ ok a) × Q a (r m).1

pub bind-Ends :
    {A B : Type 0} (r : Method A) (f : A → Method B) (m : SymbolManager)
    (P : A → SymbolManager → Type 0) (Q : B → SymbolManager → Type 0)
    → Ends r m P
    → ((a : A) → P a (r m).1 → Ends (f a) (r m).1 Q)
    → Ends (r >>= f) m Q
bind-Ends r f m P Q (a, e, h) k = rw (e, continue) (k a h)

constructing-Ends :
    {A : Type 0} (q : Pointer) (r : Method A) (m : SymbolManager) (Q : A → SymbolManager → Type 0)
    → Ends r m Q
    → Ends (constructing q r) m Q
constructing-Ends q r m Q (a, e, h) = (a, rw (e, on_throw) refl, rw (e, on_throw) h)

abbrev pub NoError : {A : Type 0} → Answer A → Type 0
NoError dlv_error = ⊥
NoError dlv_no_entry = Unit
NoError (dlv_ok a) = Unit

-- The entries of types that are no references, and those that are passed over.
abbrev pub IsPlainTag : Tag → Type 0
IsPlainTag Tag.structure_type = Unit
IsPlainTag Tag.union_type = Unit
IsPlainTag Tag.base_type = Unit
IsPlainTag Tag.enumeration_type = Unit
IsPlainTag Tag.compile_unit = Unit
IsPlainTag Tag.namespace = Unit
IsPlainTag Tag.imported_declaration = Unit
IsPlainTag Tag.class_type = Unit
IsPlainTag Tag.lexical_block = Unit
IsPlainTag _ = ⊥

-- libdwarf gives what is read of the entry.
pub record IsPlain (d : Die) : Type 0 where
  pub tag : Tag
  pub tagged : d.tag ≡ dlv_ok tag
  pub plain_tag : IsPlainTag tag
  pub named : NoError d.diename
  pub placed : NoError d.dieoffset
  pub sized : NoError d.bytesize
  pub encoding :
      (find d.attributes at_encoding ≡ none)
      ⊎ ((a : Attribute) × (e : ℕ) × (find d.attributes at_encoding ≡ some (dlv_ok a))
          × (a.form ≡ form_data (dlv_ok e)))

read_answer :
    {A : Type 0} (a : Answer A) (reason : Failure) (x : A)
    → NoError a
    → (v : A) × (elim a [ dlv_error ↦ fail reason | dlv_no_entry ↦ ok x | dlv_ok v ↦ ok v ] ≡ ok v)
read_answer {A} dlv_error reason x h = elim h [ ]
read_answer dlv_no_entry reason x h = (x, refl)
read_answer (dlv_ok v) reason x h = (v, refl)

name_read : (d : Die) → NoError d.diename → (name : String) × (get_die_name d ≡ ok name)
unfolding get_die_name
name_read d h = read_answer d.diename (dwarf_exception "Error in dwarf_diename\n") "" h

offset_read :
    (p : Parser) (d : Die) → NoError d.dieoffset → (offset : ℕ) × (get_die_offset p d ≡ ok offset)
unfolding get_die_offset
offset_read p d h =
    read_answer d.dieoffset (dwarf_exception "Error in dwarf_dieoffset\n") p.indeterminate h

size_read :
    (p : Parser) (d : Die) → NoError d.bytesize → (size : ℕ) × (get_die_byte_size p d ≡ ok size)
unfolding get_die_byte_size
size_read p d h =
    read_answer d.bytesize (dwarf_exception "Error in dwarf_bytesize\n") p.indeterminate h

modify-Ends :
    (q : Pointer) (f : Kind → Kind) (m : SymbolManager)
    → IsLive m.heap q
    → Ends (modify q f) m (λ _ m'. IsLive m'.heap q)
unfolding modify
modify-Ends q f m (s, at) =
    let s' = record s { kind = f s.kind } in
    (tt, rw at refl, rw at (s', find-assign_own m.heap.cells q s'))

add_base_type-Ends :
    (q : Pointer) (m : SymbolManager) → IsLive m.heap q → Ends (add_base_type q) m (λ _ m'. Unit)
unfolding add_base_type
add_base_type-Ends q m (s, at) = (tt, rw at refl, tt)

encoding_read :
    (p : Parser) (d : Die) (a : Attribute) (e : ℕ)
    → find d.attributes at_encoding ≡ some (dlv_ok a)
    → a.form ≡ form_data (dlv_ok e)
    → get_die_attribute_number p d at_encoding ≡ ok e
unfolding get_die_attribute_number
encoding_read p d a e there form =
    let found : get_attribute d at_encoding ≡ ok a = rw (there, get_attribute) refl in
    rw (found, form) refl

encoding-Ends :
    (p : Parser) (d : Die) (q : Pointer) (m : SymbolManager)
    → IsPlain d
    → IsLive m.heap q
    → Ends
        (when
          (die_has_attr d at_encoding)
          (number p d at_encoding >>= λ e. modify q (with_encoding e)))
        m
        (λ _ m'. IsLive m'.heap q)
unfolding die_has_attr
encoding-Ends p d q m h live = elim h.encoding [
  | inl missing ↦ rw (missing, die_has_attr) (tt, refl, live)
  | inr (a, e, there, form) ↦
      rw (there, die_has_attr)
        (bind-Ends (number p d at_encoding) (λ e. modify q (with_encoding e)) m (λ _ m'. m' ≡ m)
          (λ _ m'. IsLive m'.heap q) (e, encoding_read p d a e there form, refl)
          (λ e' same. modify-Ends q (with_encoding e') m live))
]

new_symbol-Ends :
    (p : Parser) (d : Die) (name : String) (kind : Kind) (m : SymbolManager)
    → IsPlain d
    → Ends (new_symbol p d name kind) m (λ q m'. IsLive m'.heap q)
new_symbol-Ends p d name kind m h =
    let (size, sized) = size_read p d h.sized in
    let (offset, placed) = offset_read p d h.placed in
    let s = symbol_of p name kind m size offset in
    rw (new_symbol_lem p d name kind m size offset sized placed)
      (m.heap.next, refl, (s, find-assign_own m.heap.cells m.heap.next s))

-- The object that was just made is there for the rest of the constructor of `BaseType`.
base_type-Ends :
    (p : Parser) (d : Die) (name : String) (t : TypeKind) (m : SymbolManager)
    → IsPlain d
    → Ends (new_base_type p d name t) m (λ q m'. Unit)
unfolding new_base_type
base_type-Ends p d name t m h =
    bind-Ends (new_symbol p d name (base_type 0 t)) _ m (λ q m'. IsLive m'.heap q) (λ q m'. Unit)
      (new_symbol-Ends p d name (base_type 0 t) m h)
      (λ q live.
        let m' = (new_symbol p d name (base_type 0 t) m).1 in
        let encode =
          when (die_has_attr d at_encoding)
            (number p d at_encoding >>= λ e. modify q (with_encoding e)) in
        constructing-Ends q (encode >> (add_base_type q >> pure q)) m' (λ q m'. Unit)
          (bind-Ends encode (λ _. add_base_type q >> pure q) m' (λ _ m''. IsLive m''.heap q)
            (λ q m'. Unit) (encoding-Ends p d q m' h live)
            (λ _ live'.
              bind-Ends (add_base_type q) (λ _. pure q) (encode m').1 (λ _ m''. Unit) (λ q m'. Unit)
                (add_base_type-Ends q (encode m').1 live') (λ _ _. (q, refl, tt)))))

-- A look-up by name follows live pointers only, and gives one of them.
abbrev OptionLive : Heap → Option Pointer → Type 0
OptionLive h none = Unit
OptionLive h (some q) = IsLive h q

first_of_class-Ends :
    (cast : Kind → Bool) (ps : List Pointer) (m : SymbolManager)
    → All (IsLive m.heap) ps
    → Ends (first_of_class cast ps) m (λ o m'. (m' ≡ m) × OptionLive m.heap o)
unfolding first_of_class
first_of_class-Ends cast [] m v = (none, refl, (refl, tt))
first_of_class-Ends cast (p ∷ ps) m ((s, at), vs) = elim (Bool-cases (cast s.kind)) [
  | inl is ↦ (some p, rw (at, continue, is) refl, (rw (at, continue, is) refl, (s, at)))
  | inr other ↦
      let (o, e, (same, live)) = first_of_class-Ends cast ps m vs in
      (o, rw (at, continue, other) e, (rw (at, continue, other) same, live))
]

AllLive-equal_range :
    (h : Heap) (entries : Multimap String) (name : String)
    → AllLive h entries
    → All (IsLive h) (equal_range entries name)
unfolding equal_range
AllLive-equal_range h [] name v = tt
AllLive-equal_range h ((n, p) ∷ entries) name (v, vs) = elim (Bool-cases (n == name)) [
  | inl same ↦ rw (same, equal_range) (v, AllLive-equal_range h entries name vs)
  | inr other ↦ rw (other, equal_range) (AllLive-equal_range h entries name vs)
]

find_class_by_name-Ends :
    (cast : Kind → Bool) (name : String) (m : SymbolManager)
    → IsSound m
    → Ends (find_class_by_name cast name) m (λ o m'. (m' ≡ m) × OptionLive m.heap o)
unfolding find_class_by_name
find_class_by_name-Ends cast name m v =
    first_of_class-Ends cast (equal_range m.base_type_name_map name) m
      (AllLive-equal_range m.heap m.base_type_name_map name v.4)

known_again-Ends :
    (p : Parser) (d : Die) (q : Pointer) (m : SymbolManager)
    → IsPlain d
    → IsLive m.heap q
    → Ends (known_again p d q) m (λ q m'. Unit)
unfolding known_again
known_again-Ends p d q m h (s, at) =
    let (offset, placed) = offset_read p d h.placed in (q, rw (placed, at) refl, tt)

type_instance-Ends :
    (cast : Kind → Bool) (t : TypeKind) (p : Parser) (d : Die) (name : String) (m : SymbolManager)
    → IsPlain d
    → IsSound m
    → Ends (get_type_instance cast (new_base_type p d name t) no_update p d name) m (λ q m'. Unit)
unfolding get_type_instance
type_instance-Ends cast t p d name m h v =
    bind-Ends (find_class_by_name cast name) _ m (λ o m'. (m' ≡ m) × OptionLive m.heap o)
      (λ q m'. Unit) (find_class_by_name-Ends cast name m v)
      (λ o found. rw found.0 (either o found.1))
  where
    either :
        (o : Option Pointer)
        → OptionLive m.heap o
        → Ends
            (elim o [ none ↦ new_base_type p d name t | some q ↦ no_update q >> known_again p d q ])
            m
            (λ q m'. Unit)
    either none live = base_type-Ends p d name t m h
    either (some q) live = known_again-Ends p d q m h live

init_by_tag-Ends :
    (p : Parser) (d : Die) (parent : Pointer) (name : String) (t : Tag) (m : SymbolManager)
    → IsPlainTag t
    → IsPlain d
    → IsSound m
    → Ends (init_by_tag p d parent name t) m (λ q m'. Unit)
unfolding init_by_tag
init_by_tag-Ends p d parent name Tag.structure_type m is h v =
    type_instance-Ends is_struct (structured struct []) p d name m h v
init_by_tag-Ends p d parent name Tag.union_type m is h v =
    type_instance-Ends is_union (structured union []) p d name m h v
init_by_tag-Ends p d parent name Tag.base_type m is h v =
    type_instance-Ends (λ k. holds (as_base_type k)) plain p d name m h v
init_by_tag-Ends p d parent name Tag.enumeration_type m is h v =
    type_instance-Ends (λ k. holds (as_enum k)) (enumeration []) p d name m h v
init_by_tag-Ends p d parent name Tag.compile_unit m is h v = (0, refl, tt)
init_by_tag-Ends p d parent name Tag.namespace m is h v = (0, refl, tt)
init_by_tag-Ends p d parent name Tag.imported_declaration m is h v = (0, refl, tt)
init_by_tag-Ends p d parent name Tag.class_type m is h v = (0, refl, tt)
init_by_tag-Ends p d parent name Tag.lexical_block m is h v = (0, refl, tt)
init_by_tag-Ends p d parent name Tag.typedef m is h v = elim is [ ]
init_by_tag-Ends p d parent name Tag.member m is h v = elim is [ ]
init_by_tag-Ends p d parent name Tag.pointer_type m is h v = elim is [ ]
init_by_tag-Ends p d parent name Tag.const_type m is h v = elim is [ ]
init_by_tag-Ends p d parent name Tag.enumerator m is h v = elim is [ ]
init_by_tag-Ends p d parent name Tag.variable m is h v = elim is [ ]
init_by_tag-Ends p d parent name Tag.array_type m is h v = elim is [ ]
init_by_tag-Ends p d parent name Tag.subrange_type m is h v = elim is [ ]
init_by_tag-Ends p d parent name Tag.subprogram m is h v = elim is [ ]
init_by_tag-Ends p d parent name Tag.formal_parameter m is h v = elim is [ ]
init_by_tag-Ends p d parent name Tag.other_tag m is h v = elim is [ ]

-- An entry, whatever stands above it.
pub init_symbol_from_die-Ends :
    (p : Parser) (d : Die) (parent : Pointer) (m : SymbolManager)
    → IsPlain d
    → IsSound m
    → Ends (init_symbol_from_die p d parent) m (λ q m'. Unit)
unfolding init_symbol_from_die
init_symbol_from_die-Ends p d parent m h v =
    let (name, named) = name_read d h.named in
    rw (h.tagged, init_symbol_from_die)
      (bind-Ends (lift (get_die_name d)) (λ name. init_by_tag p d parent name h.tag) m
        (λ n m'. m' ≡ m) (λ q m'. Unit) (name, named, refl)
        (λ n same. init_by_tag-Ends p d parent n h.tag m h.plain_tag h v))
