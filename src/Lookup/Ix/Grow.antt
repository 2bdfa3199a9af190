-- ===== src/Lookup/Ix/Grow.antt =====
-- lookup/ix.rs, `PrefixTrie::insert`: a new child is reached by one more path, and nothing else changes.
use ttl.Base.{
  ℕ, ◌+◌, ◌<◌, ◌≡◌, ◌≢◌, ◌∙◌, refl, sym, ap, Bool, true, false, ◌&&◌, Option, none, some, [], ◌∷◌,
  ◌++◌, length, get_elem?, modify, ◌>>=◌, arith, Option-cases, Bool-cases, inl, inr, length-append,
  length-modify, if◌then◌else◌,
}
use native.Mathlib.Decide.{ℕ_discrete}
use ttl.Base.Indexed.{get_append, get_last, get-modify, get_other}
use ttl.Lookup.Ix.{TrieNode, PrefixTrie, default_node, child, set_child}
use ttl.Lookup.Ix.Paths.{
  Bits, same_bit, same_bit_iff, same_bits, same_bits_iff, reach, info_at, IsTree,
}

child_set : (b : Bool) (c : ℕ) (n : TrieNode) → child b (set_child b c n) ≡ some c
child_set false c n = refl
child_set true c n = refl

child_other : (b d : Bool) (c : ℕ) (n : TrieNode) → b ≢ d → child d (set_child b c n) ≡ child d n
child_other false false c n h = absurd (h refl)
child_other false true c n h = refl
child_other true false c n h = refl
child_other true true c n h = absurd (h refl)

set_child-info : (b : Bool) (c : ℕ) (n : TrieNode) → (set_child b c n).info ≡ n.info
set_child-info false c n = refl
set_child-info true c n = refl

no_child : (b : Bool) → child b default_node ≡ none
no_child false = refl
no_child true = refl

-- The new child that `descend` makes.
abbrev pub grow : Bool → ℕ → PrefixTrie → PrefixTrie
grow b i t = modify i (set_child b (length t)) (t ++ (default_node ∷ []))

module _ (t : PrefixTrie) (w : IsTree t) (p : Bits) (i : ℕ) (n : TrieNode) (b : Bool)
    (at : reach p t ≡ some i) (here : get_elem? t i ≡ some n) (free : child b n ≡ none) where
  abbrev grown : PrefixTrie
  grown = grow b i t

  below : i < length t
  below = w.within p i at

  new_node : get_elem? grown (length t) ≡ some default_node
  new_node =
      get_other (set_child b (length t)) (t ++ (default_node ∷ [])) i (length t)
        (λ e. ground (arith, below))
      ∙ get_last t default_node

  parent : get_elem? grown i ≡ some (set_child b (length t) n)
  parent =
      get-modify (set_child b (length t)) (t ++ (default_node ∷ [])) i n
        (get_append t (default_node ∷ []) i below ∙ here)

  old_node : (j : ℕ) → j < length t → i ≢ j → get_elem? grown j ≡ get_elem? t j
  old_node j h ne =
      get_other (set_child b (length t)) (t ++ (default_node ∷ [])) i j ne
      ∙ get_append t (default_node ∷ []) j h

  after_new : (c : Bool) → reach (c ∷ b ∷ p) t ≡ none
  unfolding reach
  after_new c = rw (at, here, free) refl

  absent : reach (b ∷ p) t ≡ none
  unfolding reach
  absent = rw (at, here, free) refl

  same_at : (q : Bits) (j : ℕ) → reach q t ≡ some j → i ≢ j → same_bits q p ≡ false
  same_at q j there ne = elim (Bool-cases (same_bits q p)) [
    | inl same ↦
        let e : reach p t ≡ some j =
          ap (λ r. reach r t) (sym ((same_bits_iff q p).0 same)) ∙ there in
        absurd (ne cc)
    | inr other ↦ other
  ]

  nowhere : (q : Bits) → reach q t ≡ none → same_bits q p ≡ false
  nowhere q gone = elim (Bool-cases (same_bits q p)) [
    | inl same ↦
        let e : reach p t ≡ none = ap (λ r. reach r t) (sym ((same_bits_iff q p).0 same)) ∙ gone in
        absurd cc
    | inr other ↦ other
  ]

  longer : (q : Bits) → same_bits (b ∷ q) q ≡ false
  longer q = elim (Bool-cases (same_bits (b ∷ q) q)) [
    | inl same ↦
        let e : length (b ∷ q) ≡ length q = ap length ((same_bits_iff (b ∷ q) q).0 same) in
        absurd (omega arith)
    | inr other ↦ other
  ]

  from_parent :
      (c : Bool)
      → child c (set_child b (length t) n) ≡ (if same_bit c b then some (length t) else child c n)
  from_parent c = elim (Bool-cases (same_bit c b)) [
    | inl same ↦ rw (same, (same_bit_iff c b).0 same) (child_set b (length t) n)
    | inr other ↦
        rw other
          (child_other b c (length t) n λ e. ground (arith, other, (same_bit_iff c b).1 (sym e)))
  ]

  dead : (x : Bool) (o r : Option ℕ) → r ≡ none → none ≡ (if x && false then o else r)
  dead true o r gone = sym gone
  dead false o r gone = sym gone

  alive :
      (x : Bool) (c : Bool) (m : TrieNode)
      → (if x then some (length t) else child c m)
        ≡ (if x && true then some (length t) else child c m)
  alive true c m = refl
  alive false c m = refl

  spared : (x : Bool) (o r : Option ℕ) → r ≡ (if x && false then o else r)
  spared true o r = refl
  spared false o r = refl

  pub reach-grown :
      (q : Bits) → reach q grown ≡ (if same_bits q (b ∷ p) then some (length t) else reach q t)
  unfolding reach
  reach-grown [] = refl
  reach-grown (c ∷ q) = elim (Bool-cases (same_bits q (b ∷ p))) [
    | inl same ↦
        let e : q ≡ b ∷ p = (same_bits_iff q (b ∷ p)).0 same in
        let there : reach q grown ≡ some (length t) = reach-grown q ∙ rw same refl in
        let apart : same_bits q p ≡ false = rw e (longer p) in
        rw (there, new_node, no_child c, apart)
          (dead (same_bit c b) (some (length t)) (reach (c ∷ q) t)
            (ap (λ r. reach (c ∷ r) t) e ∙ after_new c))
    | inr other ↦
        let same_reach : reach q grown ≡ reach q t = reach-grown q ∙ rw other refl in
        elim (Option-cases (reach q t)) [
          | inl gone ↦
              rw (same_reach, gone, nowhere q gone)
                (dead (same_bit c b) (some (length t)) none refl)
          | inr (j, there) ↦ elim (ℕ_discrete i j) [
            | yes e ↦
                let same : q ≡ p = w.apart q p j there (at ∙ ap some e) in
                let self : same_bits q p ≡ true = (same_bits_iff q p).1 same in
                rw (same_reach, there, self, sym e, parent, here)
                  (from_parent c ∙ alive (same_bit c b) c n)
            | no ne ↦
                rw (same_reach, there, same_at q j there ne, old_node j (w.within q j there) ne)
                  (spared (same_bit c b) (some (length t)) (get_elem? t j >>= λ m. child c m))
          ]
        ]
  ]

  to_new : (q : Bits) → reach q grown ≡ some (length t) → q ≡ b ∷ p
  to_new q there = elim (Bool-cases (same_bits q (b ∷ p))) [
    | inl same ↦ (same_bits_iff q (b ∷ p)).0 same
    | inr other ↦
        let e : reach q t ≡ some (length t) = sym (rw (reach-grown q, other) refl) ∙ there in
        absurd (omega (arith, w.within q (length t) e))
  ]

  to_old : (q : Bits) (j : ℕ) → reach q grown ≡ some j → j ≢ length t → reach q t ≡ some j
  to_old q j there ne = elim (Bool-cases (same_bits q (b ∷ p))) [
    | inl same ↦
        let e : some (length t) ≡ some j = sym (rw (reach-grown q, same) refl) ∙ there in
        absurd (ne cc)
    | inr other ↦ sym (rw (reach-grown q, other) refl) ∙ there
  ]

  pub length-grown : length grown ≡ length t + 1
  length-grown =
      length-modify i (set_child b (length t)) (t ++ (default_node ∷ []))
      ∙ length-append t (default_node ∷ [])

  pub grown-IsTree : IsTree grown
  grown-IsTree = record {
    within = λ q j there. elim (ℕ_discrete j (length t)) [
      | yes e ↦ omega (arith, length-grown)
      | no ne ↦ omega (arith, length-grown, w.within q j (to_old q j there ne))
    ];
    apart = λ q r j at_q at_r. elim (ℕ_discrete j (length t)) [
      | yes e ↦ to_new q (at_q ∙ ap some e) ∙ sym (to_new r (at_r ∙ ap some e))
      | no ne ↦ w.apart q r j (to_old q j at_q ne) (to_old r j at_r ne)
    ];
  }

  info_of_old :
      (j : ℕ) → j < length t → (get_elem? grown j >>= λ m. m.info) ≡ (get_elem? t j >>= λ m. m.info)
  info_of_old j h = elim (ℕ_discrete i j) [
    | yes e ↦ rw (sym e, parent, here) (set_child-info b (length t) n)
    | no ne ↦ rw (old_node j h ne) refl
  ]

  pub info_at-grown : (q : Bits) → info_at q grown ≡ info_at q t
  unfolding info_at
  info_at-grown q = elim (Bool-cases (same_bits q (b ∷ p))) [
    | inl same ↦
        let there : reach q t ≡ none =
          ap (λ r. reach r t) ((same_bits_iff q (b ∷ p)).0 same) ∙ absent in
        rw (reach-grown q, same, new_node, there) refl
    | inr other ↦ elim (Option-cases (reach q t)) [
      | inl gone ↦ rw (reach-grown q, other, gone) refl
      | inr (j, there) ↦ rw (reach-grown q, other, there) (info_of_old j (w.within q j there))
    ]
  ]
