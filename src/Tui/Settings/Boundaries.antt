-- ===== src/Tui/Settings/Boundaries.antt =====
-- tui/views/settings.rs: byte offsets at, within and around the characters of a text.
use mathlib.Core.List.{append_assoc}
use ttl.Base.{
  ℕ, zero, suc, ◌+◌, ◌-◌, ◌≤◌, ◌<◌, ◌≡◌, ◌∙◌, refl, sym, ap, true, false, none, some, [], ◌∷◌, ◌++◌,
  leb, ltb, ◌>>=◌, arith,
}
use ttl.Base.Texts.{Text, len_utf8, byte_len}
use ttl.Tui.Settings.{split_at, is_char_boundary, boundary_before, boundary_after}

pub byte_len-append : (s t : Text) → byte_len (s ++ t) ≡ byte_len s + byte_len t
byte_len-append [] t = omega arith
byte_len-append (c ∷ s) t = omega (arith, byte_len-append s t)

pub len_utf8-bounds : (c : ℕ) → (1 ≤ len_utf8 c) × (len_utf8 c ≤ 4)
len_utf8-bounds c = ground arith

-- A whole character is passed.
split_at-past :
    (c n : ℕ) (s : Text)
    → split_at (len_utf8 c + n) (c ∷ s) ≡ (split_at n s >>= λ r. some (c ∷ r.0, r.1))
unfolding split_at
split_at-past c n s =
    let m = len_utf8 c + n - 1 in
    let some_bytes : len_utf8 c + n ≡ suc m = omega (arith, (len_utf8-bounds c).0) in
    let whole : leb (len_utf8 c) (suc m) ≡ true = ground (arith, some_bytes) in
    let left_over : suc m - len_utf8 c ≡ n = omega (arith, some_bytes) in
    ap (λ k. split_at k (c ∷ s)) some_bytes ∙ rw (whole, left_over) refl

pub split_at-here : (a b : Text) → split_at (byte_len a) (a ++ b) ≡ some (a, b)
split_at-here [] b = unfold split_at in refl
split_at-here (c ∷ a) b = split_at-past c (byte_len a) (a ++ b) ∙ rw (split_at-here a b) refl

split_at-inside :
    (a b : Text) (c k : ℕ)
    → 0 < k
    → k < len_utf8 c
    → split_at (byte_len a + k) (a ++ (c ∷ b)) ≡ none
split_at-inside [] b c zero h1 h2 = absurd (omega arith)
split_at-inside [] b c (suc j) h1 h2 =
    let e : 0 + suc j ≡ suc j = omega arith in
    let cut : leb (len_utf8 c) (suc j) ≡ false = ground (arith, h2) in
    ap (λ n. split_at n (c ∷ b)) e ∙ (unfold split_at in rw cut refl)
split_at-inside (d ∷ a) b c k h1 h2 =
    let e : len_utf8 d + byte_len a + k ≡ len_utf8 d + (byte_len a + k) = omega arith in
    ap (λ n. split_at n (d ∷ a ++ (c ∷ b))) e
    ∙ split_at-past d (byte_len a + k) (a ++ (c ∷ b))
    ∙ rw (split_at-inside a b c k h1 h2) refl

at_boundary : (a b : Text) → is_char_boundary (byte_len a) (a ++ b) ≡ true
at_boundary a b = rw (split_at-here a b) refl

before_step :
    (s : Text) (n : ℕ)
    → is_char_boundary (suc n) s ≡ false
    → boundary_before s (suc n) ≡ boundary_before s n
unfolding boundary_before
before_step s n within = rw within refl

after_step :
    (s : Text) (left_over next : ℕ)
    → ltb next (byte_len s) ≡ true
    → is_char_boundary next s ≡ false
    → boundary_after s (suc left_over) next ≡ boundary_after s left_over (next + 1)
unfolding boundary_after
after_step s left_over next before_end within = rw (before_end, within) refl

-- From within a character back to its start.
pub boundary_before-start :
    (a b : Text) (c k : ℕ)
    → k < len_utf8 c
    → boundary_before (a ++ (c ∷ b)) (byte_len a + k) ≡ byte_len a
boundary_before-start a b c zero h =
    let e : byte_len a + 0 ≡ byte_len a = omega arith in
    ap (boundary_before (a ++ (c ∷ b))) e ∙ stays (byte_len a) (at_boundary a (c ∷ b))
  where
    stays :
        (n : ℕ) → is_char_boundary n (a ++ (c ∷ b)) ≡ true → boundary_before (a ++ (c ∷ b)) n ≡ n
    stays zero there = unfold boundary_before in refl
    stays (suc n) there = unfold boundary_before in rw there refl
boundary_before-start a b c (suc k) h =
    let e : byte_len a + suc k ≡ suc (byte_len a + k) = omega arith in
    let within : is_char_boundary (suc (byte_len a + k)) (a ++ (c ∷ b)) ≡ false =
      ap (λ n. is_char_boundary n (a ++ (c ∷ b))) (sym e)
      ∙ rw (split_at-inside a b c (suc k) (omega arith) h) refl in
    ap (boundary_before (a ++ (c ∷ b))) e
    ∙ before_step (a ++ (c ∷ b)) (byte_len a + k) within
    ∙ boundary_before-start a b c k (omega arith)

-- From within a character on to its end.
pub boundary_after-end :
    (a b : Text) (c left_over k j : ℕ)
    → 0 < k
    → k + j ≡ len_utf8 c
    → j ≤ left_over
    → boundary_after (a ++ (c ∷ b)) left_over (byte_len a + k) ≡ byte_len a + len_utf8 c
boundary_after-end a b c zero k j h1 h2 h3 =
    let e : byte_len a + k ≡ byte_len a + len_utf8 c = omega arith in unfold boundary_after in e
boundary_after-end a b c (suc left_over) k zero h1 h2 h3 =
    let e : byte_len a + k ≡ byte_len a + len_utf8 c = omega arith in
    let at_end : byte_len a + k ≡ byte_len (a ++ (c ∷ [])) =
      omega (arith, byte_len-append a (c ∷ [])) in
    let there : is_char_boundary (byte_len a + k) (a ++ (c ∷ b)) ≡ true =
      ap (λ n. is_char_boundary n (a ++ (c ∷ b))) at_end
      ∙ ap (is_char_boundary (byte_len (a ++ (c ∷ [])))) (sym (append_assoc a (c ∷ []) b))
      ∙ at_boundary (a ++ (c ∷ [])) b in
    unfold boundary_after in ground (arith, there, e)
boundary_after-end a b c (suc left_over) k (suc j) h1 h2 h3 =
    let within : is_char_boundary (byte_len a + k) (a ++ (c ∷ b)) ≡ false =
      rw (split_at-inside a b c k h1 (omega arith)) refl in
    let before_end : ltb (byte_len a + k) (byte_len (a ++ (c ∷ b))) ≡ true =
      ground (arith, byte_len-append a (c ∷ b), h2) in
    let e : byte_len a + k + 1 ≡ byte_len a + (k + 1) = omega arith in
    after_step (a ++ (c ∷ b)) left_over (byte_len a + k) before_end within
    ∙ ap (boundary_after (a ++ (c ∷ b)) left_over) e
    ∙ boundary_after-end a b c left_over (k + 1) j (omega arith) (omega arith) (omega arith)
