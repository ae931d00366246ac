-- ===== src/Vmi/Unmapped.antt =====
-- `VMIInstance::readVectorFromVA` (libvmiwrapper/vmiinstance.cpp) with `fillunmapped`, where
-- nothing is mapped.
use libdwarfparser.Prelude.{
  ℕ, zero, suc, ◌+◌, ◌-◌, ◌%◌, ◌^◌, ◌≤◌, ◌<◌, ◌≡◌, refl, ap, ◌∙◌, Bool-cases, ltb→lt, lt→ltb, inl,
  inr, true, ltb, ◌==◌, nat_eq, nat_beq_iff, arith, if◌then◌else◌,
}
use libdwarfparser.Outcome.{ok, fail, undefined, ◌>>=◌}
use libdwarfparser.Block.{u64}
use libdwarfparser.Vmi.{Libvmi, zeros, page_size, chunk, read_rounds, copy_out, read_vector_from_va}
use libdwarfparser.Vmi.Vector.{IsMapped, chunk-bounds}

copy_zeros : (n : ℕ) → copy_out (zeros n) n ≡ ok (zeros n)
unfolding copy_out
copy_zeros zero = refl
copy_zeros (suc n) = rw (copy_zeros n) refl

copy_past : (n size : ℕ) → n < size → copy_out (zeros n) size ≡ fail undefined
unfolding copy_out
copy_past n zero h = absurd (omega arith)
copy_past zero (suc size) h = refl
copy_past (suc n) (suc size) h = rw (copy_past n size (omega arith)) refl

module _ (v : Libvmi) (memory : ℕ → ℕ) (pid a len : ℕ) (backed : IsMapped v memory pid a 0)
    (small : len < 2 ^ 31) (inside : a + len ≤ u64) where
  -- A round passes over a page.
  round-skips :
      (n size : ℕ)
      → size < len
      → read_rounds v (suc n) a len pid true (zeros len) size
        ≡ read_rounds v n a len pid true (zeros len) (size + page_size)
  unfolding read_rounds IsMapped
  round-skips n size more =
      let test : ltb size len ≡ true = lt→ltb size len more in
      let reads =
        (backed size (chunk len size) (chunk-bounds len size small more).0).1 (omega arith) in
      let address : (a + size) % u64 ≡ a + size = omega arith in
      let none_more : size + 0 ≡ size = omega arith in
      rw (test, read_rounds, address, reads, address, reads, none_more) refl

  -- The loop goes from page to page until it is at the end or past it.
  read_rounds-pages :
      (n size : ℕ)
      → size % page_size ≡ 0
      → size < len + page_size
      → len - size < n
      → (stop : ℕ) × (stop % page_size ≡ 0)
        × (len ≤ stop)
        × (stop < len + page_size)
        × (read_rounds v n a len pid true (zeros len) size ≡ ok (zeros len, stop))
  unfolding read_rounds
  read_rounds-pages zero size aligned before fuel = absurd (omega arith)
  read_rounds-pages (suc n) size aligned before fuel = elim (Bool-cases (ltb size len)) [
    | inr is_false ↦ (size, aligned, ground arith, before, rw (is_false, read_rounds) refl)
    | inl is_true ↦
        let more : size < len = ltb→lt size len is_true in
        let (stop, page, past, close, rest) =
          read_rounds-pages n (size + page_size) (omega arith) (omega arith) (omega arith) in
        (stop, page, past, close, round-skips n size more ∙ rest)
  ]

-- Where nothing is mapped, a read of less than 2 ^ 31 bytes below the end of the address space that
-- passes over what is not mapped gives zeros if the length is a multiple of the size of a page, and
-- reads past the end of its buffer else.
pub read_vector_from_va-unmapped :
    (v : Libvmi) (memory : ℕ → ℕ) (pid va len : ℕ)
    → IsMapped v memory pid va 0
    → len < 2 ^ 31
    → va + len ≤ u64
    → read_vector_from_va v va len pid true
      ≡ (if len % page_size == 0 then ok (zeros len) else fail undefined)
unfolding read_vector_from_va
read_vector_from_va-unmapped v memory pid va len backed small inside =
    let (stop, page, past, close, rounds) =
      read_rounds-pages v memory pid va len backed small inside (suc len) 0 (omega arith)
        (omega arith) (omega arith) in
    ap (λ o. o >>= λ r. copy_out r.0 r.1) rounds ∙ copied stop page past close
  where
    copied :
        (stop : ℕ)
        → stop % page_size ≡ 0
        → len ≤ stop
        → stop < len + page_size
        → copy_out (zeros len) stop
          ≡ (if len % page_size == 0 then ok (zeros len) else fail undefined)
    copied stop page past close = elim (Bool-cases (len % page_size == 0)) [
      | inl aligned ↦
          let at_end : stop ≡ len = ground (arith, nat_beq_iff (len % page_size) 0) in
          rw (aligned, at_end) (copy_zeros len)
      | inr off ↦
          let beyond : len < stop = ground (arith, nat_beq_iff (len % page_size) 0) in
          rw off (copy_past len stop beyond)
    ]
