-- ===== src/Navigate/Strides.antt =====
-- The step of `Instance::arrayElem` (libdwarfparser/instance.cpp) over an array of pointers.
use libdwarfparser.Prelude.{
  ℕ, ◌≡◌, ◌≢◌, refl, ◌+◌, ◌*◌, ◌%◌, ◌<◌, false, some, leb, ◌==◌, arith, nat_eq, nat_beq_iff,
}
use libdwarfparser.Outcome.{ok}
use libdwarfparser.Map.{find}
use libdwarfparser.Block.{u64}
use libdwarfparser.Symbols.{
  Symbol, Pointer, Reference, RefKind, ArrayData, base_type, plain, pointer, array, ref_base_type,
  as_array, as_ref_base_type, as_member,
}
use libdwarfparser.Manager.{SymbolManager, continue}
use libdwarfparser.Navigate.{get_base_type, get_byte_size}
use libdwarfparser.Navigate.Instances.{Instance, array_elem, get_length}
use libdwarfparser.Parser.Init.{casts_to}

base_of :
    (m : SymbolManager) (q b : Pointer) (s : Symbol) (e : ℕ) (r : Reference) (k : RefKind)
    → find m.heap.cells q ≡ some s
    → s.kind ≡ base_type e (ref_base_type r k)
    → r.base ≡ some b
    → get_base_type q m ≡ (ok b, m)
unfolding get_base_type as_ref_base_type
base_of m q b s e r k at refers resolved = rw (at, refers, as_ref_base_type, resolved) refl

get_length_lem :
    (m : SymbolManager) (i : Instance) (s : Symbol) (e : ℕ) (r : Reference) (a : ArrayData)
    → (i.type == 0) ≡ false
    → find m.heap.cells i.type ≡ some s
    → s.kind ≡ base_type e (ref_base_type r (array a))
    → get_length i m ≡ (ok a.length, m)
unfolding get_length as_array
get_length_lem m i s e r a real at refers = rw (real, at, refers) refl

-- An array of pointers to a type, all resolved.
module _ (m : SymbolManager) (i : Instance) (p t : Pointer)
    (array_type pointer_type target : Symbol) (e e' e'' : ℕ) (r r' : Reference) (a : ArrayData)
    (at_i : find m.heap.cells i.type ≡ some array_type)
    (is_array : array_type.kind ≡ base_type e (ref_base_type r (array a))) (to_p : r.base ≡ some p)
    (at_p : find m.heap.cells p ≡ some pointer_type)
    (is_pointer : pointer_type.kind ≡ base_type e' (ref_base_type r' pointer))
    (to_t : r'.base ≡ some t) (at_t : find m.heap.cells t ≡ some target)
    (is_plain : target.kind ≡ base_type e'' plain) where
  size_of_pointer : get_byte_size 2 p m ≡ (ok target.byte_size, m)
  unfolding get_byte_size as_array as_ref_base_type as_member
  size_of_pointer =
      rw
        (
          at_p,
          is_pointer,
          is_pointer,
          base_of m p t pointer_type e' r' pointer at_p is_pointer to_t,
          continue,
          at_t,
          is_plain,
          is_plain,
          is_plain,
        )
        refl

  -- The elements of an array of pointers to a plain type, all resolved, lie apart by the size of
  -- what they point to, whatever size the constructor of the pointer has set.
  pub array_elem-pointers :
      (element : ℕ)
      → i.type ≢ 0
      → element < a.length
      → target.byte_size ≢ 0
      → array_elem 2 i element m
        ≡ (ok (record { type = p; address = (i.address + element * target.byte_size) % u64 }), m)
  unfolding array_elem get_length casts_to as_array
  array_elem-pointers element real inside sized =
      let null_test : (i.type == 0) ≡ false = ground (arith, nat_beq_iff i.type 0) in
      let in_bounds : leb a.length element ≡ false = ground arith in
      let size_test : (target.byte_size == 0) ≡ false =
        ground (arith, nat_beq_iff target.byte_size 0) in
      rw
        (
          get_length_lem m i array_type e r a null_test at_i is_array,
          continue,
          in_bounds,
          null_test,
          at_i,
          is_array,
          base_of m i.type p array_type e r (array a) at_i is_array to_p,
          size_of_pointer,
          size_test,
        )
        refl
