-- ===== src/Lookup/Ix/Search.antt =====
-- lookup/ix.rs, `PrefixTrie::lookup`: the walk finds the info of the longest of the address's
-- leading parts that has one.
use ttl.Base.{
  ℕ, zero, suc, ◌+◌, ◌≡◌, ◌∙◌, refl, sym, ap, Option, none, some, [], arith, Option-cases, inl, inr,
}
use ttl.Base.Indexed.{get-within}
use ttl.Lookup.Ix.{PrefixTrie, child, bit_at, better, search_bits, lookup}
use ttl.Lookup.Ix.Paths.{Bits, reach, info_at, IsTree}
use ttl.Lookup.Ix.Insert.{leading}

-- The longest of the first parts of an address, up to `n` bits, at which there is something.
unfoldable pub longest : (Bits → Option ℕ) → ℕ → ℕ → Option ℕ
longest f bits zero = f []
longest f bits (suc n) = better (f (leading bits (suc n))) (longest f bits n)

module _ (t : PrefixTrie) (w : IsTree t) (bits : ℕ) where
  infos : Bits → Option ℕ
  infos q = info_at q t

  lost :
      (i m : ℕ) → reach (leading bits (suc i)) t ≡ none → reach (leading bits (suc m + i)) t ≡ none
  unfolding reach leading
  lost i zero gone =
      let e : suc i ≡ 1 + i = omega arith in ap (λ k. reach (leading bits k) t) (sym e) ∙ gone
  lost i (suc m) gone =
      let e : suc (suc m) + i ≡ suc (suc m + i) = omega arith in
      ap (λ k. reach (leading bits k) t) e ∙ rw (lost i m gone) refl

  stays :
      (i m : ℕ)
      → reach (leading bits (suc i)) t ≡ none
      → longest infos bits (m + i) ≡ longest infos bits i
  unfolding longest infos info_at
  stays i zero gone = let e : 0 + i ≡ i = omega arith in ap (longest infos bits) e
  stays i (suc m) gone =
      let e : suc m + i ≡ suc (m + i) = omega arith in
      let none_there : reach (leading bits (suc (m + i))) t ≡ none =
        ap (λ k. reach (leading bits k) t) (sym e) ∙ lost i m gone in
      ap (longest infos bits) e ∙ rw none_there (stays i m gone)

  finds :
      (k i node : ℕ)
      → reach (leading bits i) t ≡ some node
      → search_bits bits k i node (longest infos bits i) t ≡ some (longest infos bits (k + i))
  unfolding search_bits
  finds zero i node at = let e : i ≡ 0 + i = omega arith in ap (λ m. some (longest infos bits m)) e
  finds (suc k) i node at =
      let (n, here) = get-within t node (w.within (leading bits i) node at) in
      elim (Option-cases (child (bit_at bits i) n)) [
        | inl free ↦
            let gone : reach (leading bits (suc i)) t ≡ none =
              unfold reach leading in rw (at, here) free in
            rw (here, free) (ap some (sym (stays i (suc k) gone)))
        | inr (c, taken) ↦
            let at' : reach (leading bits (suc i)) t ≡ some c =
              unfold reach leading in rw (at, here) taken in
            let (m, there) = get-within t c (w.within (leading bits (suc i)) c at') in
            let one_more : i + 1 ≡ suc i = omega arith in
            let the_rest : k + suc i ≡ suc k + i = omega arith in
            let best : better m.info (longest infos bits i) ≡ longest infos bits (suc i) =
              unfold longest infos info_at in rw (at', there) refl in
            rw (here, taken, there, one_more, best)
              (finds k (suc i) c at' ∙ ap (λ j. some (longest infos bits j)) the_rest)
      ]

  pub lookup-longest : (n : ℕ) → lookup bits n t ≡ some (longest (λ q. info_at q t) bits n)
  unfolding lookup infos info_at reach leading longest
  lookup-longest n =
      let (root, here) = get-within t 0 (w.within [] 0 refl) in
      let from_start : n + 0 ≡ n = omega arith in
      let best : root.info ≡ longest infos bits 0 = rw here refl in
      rw here (
        ap (λ b. search_bits bits n 0 0 b t) best
        ∙ finds n 0 0 refl
        ∙ ap (λ k. some (longest infos bits k)) from_start)
