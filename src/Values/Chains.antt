-- ===== src/Values/Chains.antt =====
-- The values of instances whose type is a chain of references (libdwarfparser/instance.h and
-- `Instance::dereference` of libdwarfparser/instance.cpp).
use libdwarfparser.Prelude.{
  ℕ, zero, suc, ◌≡◌, ◌≢◌, refl, ◌∙◌, Bool, true, false, none, some, ◌==◌, nat_eq, nat_beq_iff,
  arith,
}
use libdwarfparser.Outcome.{ok}
use libdwarfparser.Map.{find}
use libdwarfparser.Symbols.{
  Symbol, Pointer, Reference, RefKind, TypeKind, base_type, as_ref_base_type,
}
use libdwarfparser.Manager.{SymbolManager, deref, continue}
use libdwarfparser.Manager.Lookup.{holds}
use libdwarfparser.Parser.Init.{casts_to}
use libdwarfparser.Vmi.{Libvmi, Vm, read_64_from_va, instance_read64}
use libdwarfparser.Navigate.{get_base_type}
use libdwarfparser.Navigate.Chains.{Chain, here, there, underlying-Chain}
use libdwarfparser.Navigate.Instances.{Instance, non_zero, follow_all, dereference, get_real_type}
use libdwarfparser.Values.{Encoding, ValueType, string_type, typeid, get_value, get_raw_value}
use libdwarfparser.Values.Instances.{instance_value, instance_raw_value}
use libdwarfparser.Values.Types.{non_zero-true}

-- The address that is reached by reading an address from memory a number of times.
unfoldable pub at_depth : Libvmi → ℕ → ℕ → ℕ
at_depth v zero address = address
at_depth v (suc n) address = at_depth v n (read_64_from_va v address 0)

module _ (v : Libvmi) (vm : Vm) (ready : vm.has_instance ≡ true) where
  read_succeeds : (a : ℕ) → instance_read64 v vm a ≡ ok (read_64_from_va v a 0)
  unfolding instance_read64
  read_succeeds a = rw ready refl

  follow_all-Chain :
      (m : SymbolManager) (n : ℕ) (q t : Pointer) (address : ℕ)
      → Chain m n q t
      → follow_all (instance_read64 v vm) (λ k. holds (as_ref_base_type k)) (suc n) q address m
        ≡ (ok (record { type = t; address = at_depth v n address }), m)
  unfolding follow_all get_base_type deref casts_to at_depth
  follow_all-Chain m _ _ _ address (here t s real at none_there) = ground (arith, nat_beq_iff t 0)
  follow_all-Chain m _ _ _ address (there k q b t s r j real at refers resolved rest) = ground (
    arith,
    nat_beq_iff q 0,
    read_succeeds address,
    follow_all-Chain m k b t (read_64_from_va v address 0) rest,
  )

  -- An instance of a type that is no reference.
  raw_value-plain :
      (m : SymbolManager) (t : ValueType) (n : ℕ) (q : Pointer) (s : Symbol) (address : ℕ)
      (deref_it : Bool)
      → q ≢ 0
      → find m.heap.cells q ≡ some s
      → as_ref_base_type s.kind ≡ none
      → address ≢ 0
      → instance_raw_value v vm (suc n) t (record { type = q; address = address }) deref_it m
        ≡ (get_raw_value v vm t address 0, m)
  unfolding instance_raw_value casts_to deref
  raw_value-plain m t n q s address deref_it real at none_there placed =
      ground (arith, nat_beq_iff q 0, nat_beq_iff address 0)

  -- An instance of a reference.
  raw_value-refers :
      (m : SymbolManager) (t : ValueType) (n : ℕ) (q : Pointer) (s : Symbol) (r : Reference)
      (k : RefKind) (address : ℕ) (i : Instance)
      → (typeid t == typeid string_type) ≡ false
      → q ≢ 0
      → find m.heap.cells q ≡ some s
      → as_ref_base_type s.kind ≡ some (r, k)
      → address ≢ 0
      → dereference (instance_read64 v vm) (suc n) (record { type = q; address = address }) m
        ≡ (ok i, m)
      → instance_raw_value v vm (suc n) t (record { type = q; address = address }) true m
        ≡ instance_raw_value v vm n t i (non_zero i.address) m
  unfolding instance_raw_value casts_to deref
  raw_value-refers m t n q s r k address i other real at refers placed found =
      let is_real : (q == 0) ≡ false = ground (arith, nat_beq_iff q 0) in
      let casts : casts_to (λ j. holds (as_ref_base_type j)) q m ≡ (ok true, m) =
        rw (is_real, at, refers) refl in
      rw (non_zero-true address placed, non_zero-true q real, casts, other, found) refl

  raw_value-end :
      (m : SymbolManager) (t : ValueType) (n k : ℕ) (q e : Pointer) (address : ℕ) (deref_it : Bool)
      → Chain m n q e
      → address ≢ 0
      → instance_raw_value v vm (suc k) t (record { type = e; address = address }) deref_it m
        ≡ (get_raw_value v vm t address 0, m)
  raw_value-end m t _ k _ _ address deref_it (here e s real at none_there) placed =
      raw_value-plain m t k e s address deref_it real at none_there placed
  raw_value-end m t _ k _ _ address deref_it (there n q b e s r j real at refers resolved rest)
        placed =
      raw_value-end m t n k b e address deref_it rest placed

  -- With libvmi set up, `getRawValue` of an instance whose type is a chain of `n` resolved
  -- references, pointers or not, reads an address from memory `n` times and gives the raw value
  -- that the last of them has, if neither the address of the instance nor the last one is 0 and
  -- the type asked for is not a string.
  pub instance_raw_value-Chain :
      (m : SymbolManager) (t : ValueType) (n : ℕ) (q e : Pointer) (address : ℕ)
      → Chain m n q e
      → address ≢ 0
      → at_depth v n address ≢ 0
      → (typeid t == typeid string_type) ≡ false
      → instance_raw_value v vm (suc n) t (record { type = q; address = address }) true m
        ≡ (get_raw_value v vm t (at_depth v n address) 0, m)
  unfolding dereference at_depth
  instance_raw_value-Chain m t _ _ _ address (here e s real at none_there) placed end other =
      raw_value-plain m t 0 e s address true real at none_there placed
  instance_raw_value-Chain m t _ _ _ address (there n q b e s r j real at refers resolved rest)
        placed end other =
      raw_value-refers m t (suc n) q s r j address
        (record { type = e; address = at_depth v (suc n) address }) other real at refers placed
        (follow_all-Chain m (suc n) q e address (there n q b e s r j real at refers resolved rest))
      ∙ raw_value-end m t n n b e (at_depth v (suc n) address)
          (non_zero (at_depth v (suc n) address)) rest end

  -- With libvmi set up, `getValue` of an instance whose type is a chain of resolved references reads
  -- the value at the address of the instance itself, by the encoding of the type that the chain ends
  -- in.
  pub instance_value-Chain :
      (m : SymbolManager) (encoding_of : ℕ → Encoding) (t : ValueType) (n : ℕ) (q e : Pointer)
      (address : ℕ) (s : Symbol) (encoding : ℕ) (k : TypeKind)
      → Chain m n q e
      → address ≢ 0
      → q ≢ 0
      → find m.heap.cells e ≡ some s
      → s.kind ≡ base_type encoding k
      → instance_value v vm encoding_of (suc n) t (record { type = q; address = address }) m
        ≡ (get_value v vm encoding_of t encoding address 0, m)
  unfolding instance_value get_real_type deref
  instance_value-Chain m encoding_of t n q e address s encoding k chain placed real at is_type =
      rw
        (
          non_zero-true address placed,
          non_zero-true q real,
          underlying-Chain m n q e chain,
          continue,
          at,
          is_type,
        )
        refl
