-- ===== src/Lookup/Ix/Insert.antt =====
-- lookup/ix.rs, `PrefixTrie::insert`: what an insertion does to the info at each path.

use mathlib.Core.Path.{fun_ext}
use ttl.Base.{
  ℕ, zero, suc, ◌+◌, ◌<◌, ◌≤◌, ◌≡◌, ◌≢◌, ◌∙◌, refl, sym, ap, subst, Bool, true, false, ◌%◌, some,
  [], ◌∷◌, length, get_elem?, modify, ◌>>=◌, if◌then◌else◌, arith, Option-cases, Bool-cases, inl,
  inr, length-modify,
}
use ttl.Base.Indexed.{get-within, get-modify, get_other, get-modify_same}
use ttl.Lookup.Ix.{
  TrieNode, PrefixTrie, child, bit_at, descend, descend_bits, set_info, first_of, insert,
}
use ttl.Lookup.Ix.Paths.{Bits, same_bits, same_bits_iff, reach, info_at, IsTree}
use ttl.Lookup.Ix.Grow.{grow, reach-grown, length-grown, grown-IsTree, info_at-grown}

-- The first `n` bits of an address, the last one first.
unfoldable pub leading : ℕ → ℕ → Bits
leading bits zero = []
leading bits (suc n) = bit_at bits n ∷ leading bits n

-- What the loop keeps while it goes down a path.
record IsDescent (t : PrefixTrie) (k : ℕ) (p : Bits) (r : ℕ × PrefixTrie) : Type 0 where
  tree : IsTree r.1
  there : reach p r.1 ≡ some r.0
  infos : (q : Bits) → info_at q r.1 ≡ info_at q t
  size : length r.1 ≤ length t + k

one_step :
    (b : Bool) (p : Bits) (node : ℕ) (t : PrefixTrie) (n : TrieNode)
    → IsTree t
    → reach p t ≡ some node
    → get_elem? t node ≡ some n
    → length t < 4294967296
    → IsDescent t 1 (b ∷ p) (descend b node t n)
unfolding reach
one_step b p node t n w at here room = elim (Option-cases (child b n)) [
  | inl free ↦
      let fits : length t % 4294967296 ≡ length t = omega arith in
      let next : descend b node t n ≡ (length t, grow b node t) = rw (descend, free, fits) refl in
      subst (λ r. IsDescent t 1 (b ∷ p) r) (sym next)
        (record {
          tree = grown-IsTree t w p node n b at here free;
          there =
              rw
                (
                  reach-grown t w p node n b at here free (b ∷ p),
                  (same_bits_iff (b ∷ p) (b ∷ p)).1 refl,
                )
                refl;
          infos = info_at-grown t w p node n b at here free;
          size = omega (arith, length-grown t w p node n b at here free);
        })
  | inr (c, taken) ↦
      let next : descend b node t n ≡ (c, t) = rw (descend, taken) refl in
      subst (λ r. IsDescent t 1 (b ∷ p) r) (sym next)
        (record { tree = w; there = rw (at, here) taken; infos = λ q. refl; size = omega arith })
]

descends :
    (bits k i node : ℕ) (t : PrefixTrie)
    → IsTree t
    → reach (leading bits i) t ≡ some node
    → length t + k ≤ 4294967296
    → (r : ℕ × PrefixTrie) × (descend_bits bits k i node t ≡ some r)
      × IsDescent t k (leading bits (i + k)) r
unfolding descend_bits leading
descends bits zero i node t w at room =
    let none_left : i + 0 ≡ i = omega arith in
    (
      (node, t),
      refl,
      record {
        tree = w;
        there = ap (λ m. reach (leading bits m) t) none_left ∙ at;
        infos = λ q. refl;
        size = omega arith;
      },
    )
descends bits (suc k) i node t w at room =
    let (n, here) = get-within t node (w.within (leading bits i) node at) in
    let next = descend (bit_at bits i) node t n in
    let d = one_step (bit_at bits i) (leading bits i) node t n w at here (omega arith) in
    let one_more : i + 1 ≡ suc i = omega arith in
    let the_rest : i + suc k ≡ i + 1 + k = omega arith in
    let (r, done, e) =
      descends bits k (i + 1) next.0 next.1 d.tree
        (ap (λ m. reach (leading bits m) next.1) one_more ∙ d.there) (omega (arith, d.size)) in
    (
      r,
      rw here done,
      record {
        tree = e.tree;
        there = ap (λ m. reach (leading bits m) r.1) the_rest ∙ e.there;
        infos = λ q. e.infos q ∙ d.infos q;
        size = omega (arith, e.size, d.size);
      },
    )

child-set_info : (b : Bool) (idx : ℕ) (n : TrieNode) → child b (set_info idx n) ≡ child b n
child-set_info true idx n = refl
child-set_info false idx n = refl

reach-set_info :
    (q : Bits) (i idx : ℕ) (t : PrefixTrie) → reach q (modify i (set_info idx) t) ≡ reach q t
unfolding reach
reach-set_info [] i idx t = refl
reach-set_info (b ∷ q) i idx t =
    ap (λ o. o >>= λ j. get_elem? (modify i (set_info idx) t) j >>= λ n. child b n)
      (reach-set_info q i idx t)
    ∙ ap (λ f. reach q t >>= f)
        (fun_ext λ j. get-modify_same (set_info idx) (child b) t i j (child-set_info b idx))

-- What an insertion makes of a trie: the info is put at the path of the prefix unless there is one,
-- and no other path changes.
pub record IsInserted (t : PrefixTrie) (p : Bits) (k idx : ℕ) (t' : PrefixTrie) : Type 0 where
  pub tree : IsTree t'
  pub infos :
      (q : Bits)
      → info_at q t' ≡ (if same_bits q p then first_of (info_at q t) idx else info_at q t)
  pub size : length t' ≤ length t + k

put :
    (t0 t : PrefixTrie) (k : ℕ) (p : Bits) (node idx : ℕ)
    → IsDescent t0 k p (node, t)
    → IsInserted t0 p k idx (modify node (set_info idx) t)
unfolding info_at
put t0 t k p node idx d =
    let t' = modify node (set_info idx) t in
    let back = reach-set_info in
    let (n, here) = get-within t node (d.tree.within p node d.there) in
    record {
      tree = record {
        within = λ q j there. omega (
          arith,
          length-modify node (set_info idx) t,
          d.tree.within q j (sym (back q node idx t) ∙ there),
        );
        apart = λ q r j at_q at_r.
            d.tree.apart q r j (sym (back q node idx t) ∙ at_q) (sym (back r node idx t) ∙ at_r);
      };
      infos = λ q.
          ap (λ o. o >>= λ j. get_elem? t' j >>= λ m. m.info) (back q node idx t)
          ∙ settled q n here
          ∙ ap (λ o. if same_bits q p then first_of o idx else o) (d.infos q);
      size = omega (arith, length-modify node (set_info idx) t, d.size);
    }
  where
    settled :
        (q : Bits) (n : TrieNode)
        → get_elem? t node ≡ some n
        → (reach q t >>= λ j. get_elem? (modify node (set_info idx) t) j >>= λ m. m.info)
          ≡ (if same_bits q p then first_of (info_at q t) idx else info_at q t)
    settled q n here = elim (Bool-cases (same_bits q p)) [
      | inl same ↦
          let at : reach q t ≡ some node =
            ap (λ r. reach r t) ((same_bits_iff q p).0 same) ∙ d.there in
          rw (same, at, here, get-modify (set_info idx) t node n here) refl
      | inr other ↦ elim (Option-cases (reach q t)) [
        | inl gone ↦ rw (other, gone) refl
        | inr (j, there) ↦
            let ne : node ≢ j = λ e.
              let same : same_bits q p ≡ true =
                (same_bits_iff q p).1 (d.tree.apart q p j there (d.there ∙ ap some e)) in
              ground (arith, same, other) in
            rw (other, there, get_other (set_info idx) t node j ne) refl
      ]
    ]

pub insert-IsInserted :
    (bits prefix_len idx : ℕ) (t : PrefixTrie)
    → IsTree t
    → length t + prefix_len ≤ 4294967296
    → (t' : PrefixTrie) × (insert bits prefix_len idx t ≡ some t')
      × IsInserted t (leading bits prefix_len) prefix_len idx t'
unfolding insert reach leading
insert-IsInserted bits prefix_len idx t w room =
    let (r, done, d) = descends bits prefix_len 0 0 t w refl room in
    let from_start : 0 + prefix_len ≡ prefix_len = omega arith in
    let e = subst (λ m. IsDescent t prefix_len (leading bits m) r) from_start d in
    let (n, here) = get-within r.1 r.0 (e.tree.within (leading bits prefix_len) r.0 e.there) in
    (
      modify r.0 (set_info idx) r.1,
      rw (done, here) refl,
      put t r.1 prefix_len (leading bits prefix_len) r.0 idx e,
    )
