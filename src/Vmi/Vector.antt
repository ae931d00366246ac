-- ===== src/Vmi/Vector.antt =====
-- `VMIInstance::readVectorFromVA` (libvmiwrapper/vmiinstance.cpp) where memory is mapped up to an
-- address.
use libdwarfparser.Prelude.{
  ℕ, zero, suc, ◌+◌, ◌-◌, ◌%◌, ◌^◌, ◌≤◌, ◌<◌, ◌≡◌, refl, ap, sym, ◌∙◌, Bool, true, false, List, [],
  ◌∷◌, ◌++◌, length, ltb, ◌==◌, nat_beq_iff, nat_eq, Bool-cases, ltb→lt, inl, inr, lt→ltb, arith,
  if◌then◌else◌,
}
use mathlib.Core.List.{append_assoc}
use libdwarfparser.Outcome.{ok, ◌>>=◌}
use libdwarfparser.Block.{u64}
use libdwarfparser.Vmi.{
  Libvmi, zeros, chunk, fill_buffer, read_rounds, copy_out, read_vector_from_va,
}

-- The `count` bytes of a memory from an address on.
unfoldable pub bytes : (ℕ → ℕ) → ℕ → ℕ → List ℕ
bytes memory a zero = []
bytes memory a (suc count) = memory a ∷ bytes memory (suc a) count

pub length-bytes : (memory : ℕ → ℕ) (a count : ℕ) → length (bytes memory a count) ≡ count
unfolding bytes
length-bytes memory a zero = refl
length-bytes memory a (suc count) = omega (arith, length-bytes memory (suc a) count)

-- Less of two numbers.
abbrev pub min : ℕ → ℕ → ℕ
min a b = if ltb a b then a else b

-- Reading at an offset of `a` gives at least one byte while memory is mapped there, never more than
-- are asked for or than are mapped, and none behind.
unfoldable pub IsMapped : Libvmi → (ℕ → ℕ) → ℕ → ℕ → ℕ → Type 0
IsMapped v memory pid a mapped =
    (size count : ℕ)
    → 0 < count
    → (size < mapped
        → (n : ℕ) × (0 < n)
          × (n ≤ count)
          × (size + n ≤ mapped)
          × (v.read_va (a + size) pid count ≡ bytes memory (a + size) n))
      × (mapped ≤ size → v.read_va (a + size) pid count ≡ [])

-- The bytes go behind those that are there.
fill_zeros :
    (ys : List ℕ) (left : ℕ)
    → length ys ≤ left
    → fill_buffer (zeros left) 0 ys ≡ ok (ys ++ zeros (left - length ys))
unfolding fill_buffer
fill_zeros [] zero h = refl
fill_zeros [] (suc left) h = let same : suc left - 0 ≡ suc left = omega arith in rw same refl
fill_zeros (y ∷ ys) zero h = absurd (omega arith)
fill_zeros (y ∷ ys) (suc left) h =
    let same : suc left - suc (length ys) ≡ left - length ys = omega arith in
    rw (fill_zeros ys left (omega arith), same) refl

fill_behind :
    (xs ys : List ℕ) (left : ℕ)
    → length ys ≤ left
    → fill_buffer (xs ++ zeros left) (length xs) ys ≡ ok (xs ++ (ys ++ zeros (left - length ys)))
unfolding fill_buffer
fill_behind [] ys left h = fill_zeros ys left h
fill_behind (x ∷ xs) [] left h = let same : left - 0 ≡ left = omega arith in rw same refl
fill_behind (x ∷ xs) (y ∷ ys) left h = rw (fill_behind xs (y ∷ ys) left h) refl

bytes-split :
    (memory : ℕ → ℕ) (a s n : ℕ)
    → bytes memory a (s + n) ≡ bytes memory a s ++ bytes memory (a + s) n
unfolding bytes
bytes-split memory a zero n =
    let same : a + 0 ≡ a = omega arith in
    let none_before : 0 + n ≡ n = omega arith in rw (same, none_before) refl
bytes-split memory a (suc s) n =
    let same : a + suc s ≡ suc a + s = omega arith in
    let count : suc s + n ≡ suc (s + n) = omega arith in
    rw (same, count, bytes-split memory (suc a) s n) refl

fill_bytes :
    (memory : ℕ → ℕ) (a size count len : ℕ)
    → size + count ≤ len
    → fill_buffer (bytes memory a size ++ zeros (len - size)) size (bytes memory (a + size) count)
      ≡ ok (bytes memory a (size + count) ++ zeros (len - (size + count)))
fill_bytes memory a size count len h =
    let at_size : length (bytes memory a size) ≡ size = length-bytes memory a size in
    let given : length (bytes memory (a + size) count) ≡ count =
      length-bytes memory (a + size) count in
    let left : len - size - count ≡ len - (size + count) = omega arith in
    ap
      (λ i.
        fill_buffer (bytes memory a size ++ zeros (len - size)) i (bytes memory (a + size) count))
      (sym at_size)
    ∙ fill_behind (bytes memory a size) (bytes memory (a + size) count) (len - size)
        (omega (arith, given))
    ∙ rw (given, left, bytes-split memory a size count, append_assoc) refl

copy_bytes :
    (memory : ℕ → ℕ) (a size : ℕ) (rest : List ℕ)
    → copy_out (bytes memory a size ++ rest) size ≡ ok (bytes memory a size)
unfolding bytes copy_out
copy_bytes memory a zero rest = refl
copy_bytes memory a (suc size) rest = rw (copy_bytes memory (suc a) size rest) refl

-- No request is empty or goes past the end.
pub chunk-bounds :
    (len size : ℕ)
    → len < 2 ^ 31
    → size < len
    → (0 < chunk len size) × (chunk len size ≤ len - size)
unfolding chunk
chunk-bounds len size small more =
    let low : (len - size) % 2 ^ 32 ≡ len - size = omega arith in
    let positive : ltb (len - size) (2 ^ 31) ≡ true = ground arith in
    rw (low, positive) (ground arith)

module _ (v : Libvmi) (memory : ℕ → ℕ) (pid a mapped len : ℕ)
    (backed : IsMapped v memory pid a mapped) (small : len < 2 ^ 31) (inside : a + len ≤ u64) where
  -- A round that reads.
  round-reads :
      (n size count : ℕ) (fillunmapped : Bool)
      → size < len
      → 0 < count
      → count ≤ len - size
      → v.read_va (a + size) pid (chunk len size) ≡ bytes memory (a + size) count
      → read_rounds v
          (suc n)
          a
          len
          pid
          fillunmapped
          (bytes memory a size ++ zeros (len - size))
          size
        ≡ read_rounds v n a len pid fillunmapped
            (bytes memory a (size + count) ++ zeros (len - (size + count)))
            (size + count)
  unfolding read_rounds
  round-reads n size count fillunmapped more some_read fits reads =
      let test : ltb size len ≡ true = lt→ltb size len more in
      let address : (a + size) % u64 ≡ a + size = omega arith in
      let given : length (bytes memory (a + size) count) ≡ count =
        length-bytes memory (a + size) count in
      let went_on : (count == 0) ≡ false = ground (arith, nat_beq_iff count 0) in
      rw
        (
          test,
          read_rounds,
          address,
          reads,
          fill_bytes memory a size count len (omega arith),
          given,
          went_on,
          address,
          reads,
          given,
        )
        refl

  -- A round that finds nothing mapped.
  round-stops :
      (n size : ℕ)
      → size < len
      → v.read_va (a + size) pid (chunk len size) ≡ []
      → read_rounds v (suc n) a len pid false (bytes memory a size ++ zeros (len - size)) size
        ≡ ok (bytes memory a size ++ zeros (len - size), size)
  unfolding read_rounds
  round-stops n size more reads =
      let test : ltb size len ≡ true = lt→ltb size len more in
      let address : (a + size) % u64 ≡ a + size = omega arith in
      let none_more : size + 0 ≡ size = omega arith in
      rw (test, read_rounds, address, reads, address, reads, none_more) refl

  -- The loop.
  read_rounds-bytes :
      (n size : ℕ)
      → size ≤ min len mapped
      → len - size < n
      → read_rounds v n a len pid false (bytes memory a size ++ zeros (len - size)) size
        ≡ ok (bytes memory a (min len mapped) ++ zeros (len - min len mapped), min len mapped)
  unfolding read_rounds IsMapped
  read_rounds-bytes zero size before fuel = absurd (omega arith)
  read_rounds-bytes (suc n) size before fuel = elim (Bool-cases (ltb size len)) [
    | inr is_false ↦
        let at_end : size ≡ min len mapped = ground arith in rw (is_false, read_rounds, at_end) refl
    | inl is_true ↦ elim (Bool-cases (ltb size mapped)) [
      | inl here ↦
          let more : size < len = ltb→lt size len is_true in
          let request = chunk-bounds len size small more in
          let (count, some_read, asked, there, reads) =
            (backed size (chunk len size) request.0).0 (ltb→lt size mapped here) in
          round-reads n size count false more some_read (omega (arith, request)) reads
          ∙ read_rounds-bytes n (size + count) (ground arith) (omega (arith, some_read))
      | inr behind ↦
          let at_end : size ≡ min len mapped = ground arith in
          let more : size < len = ltb→lt size len is_true in
          let request = chunk-bounds len size small more in
          rw
            (
              round-stops n size more ((backed size (chunk len size) request.0).1 (ground arith)),
              at_end,
            )
            refl
    ]
  ]

-- Without `fillunmapped`, the read of fewer than 2 ^ 31 bytes below the end of the address space, of
-- which the first `mapped` are backed by memory, is the bytes of that memory up to where it is
-- mapped, however many bytes libvmi gives at a time.
pub read_vector_from_va-eq-bytes :
    (v : Libvmi) (memory : ℕ → ℕ) (pid va mapped len : ℕ)
    → IsMapped v memory pid va mapped
    → len < 2 ^ 31
    → va + len ≤ u64
    → read_vector_from_va v va len pid false ≡ ok (bytes memory va (min len mapped))
unfolding bytes read_vector_from_va
read_vector_from_va-eq-bytes v memory pid va mapped len backed small inside =
    let whole : len ≡ len - 0 = omega arith in
    let rounds =
      ap (λ k. read_rounds v (suc len) va len pid false (zeros k) 0) whole
      ∙ read_rounds-bytes v memory pid va mapped len backed small inside (suc len) 0 (ground arith)
          (omega arith) in
    ap (λ o. o >>= λ r. copy_out r.0 r.1) rounds
    ∙ copy_bytes memory va (min len mapped) (zeros (len - min len mapped))
