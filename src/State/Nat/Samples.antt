-- ===== src/State/Nat/Samples.antt =====
-- What a history of port checks leaves behind.
use ttl.Base.{
  ℕ, ◌+◌, ◌%◌, ◌≤◌, ◌<◌, ◌≡◌, sym, inl, inr, Bool-cases, take_all, take-append_full, Option, none,
  some, List, [], ◌∷◌, ◌++◌, ltb, ◌==◌, length, take, arith, length-append, if◌then◌else◌,
}
use mathlib.Core.List.{append-nil, append_assoc}
use ttl.State.Nat.{
  NatInfo, or_no_info, record_match, record_rewrite, has_nat, total_checks, record_nat_check,
}

-- The checks in order, each with the port sent and the port returned.
pub checks : Option NatInfo → List (ℕ × ℕ) → Option NatInfo
checks n [] = n
checks n ((orig, ret) ∷ rest) = checks (record_nat_check n (some orig) (some ret)) rest

-- The rewritten pairs of a history, in order.
pub rewrites : List (ℕ × ℕ) → List (ℕ × ℕ)
rewrites [] = []
rewrites ((orig, ret) ∷ rest) =
    let more = rewrites rest in if orig == ret then more else (orig, ret) ∷ more

length-rewrites-le : (h : List (ℕ × ℕ)) → length (rewrites h) ≤ length h
unfolding rewrites
length-rewrites-le [] = omega arith
length-rewrites-le ((orig, ret) ∷ rest) = ground (arith, length-rewrites-le rest)

-- What `checks` leaves of a state `n`, in terms of what the state and the history hold.
record After (n n' : NatInfo) (h : List (ℕ × ℕ)) : Type 0 where
  rewritten : n'.port_rewritten ≡ (n.port_rewritten + length (rewrites h)) % 18446744073709551616
  counted :
      (n'.port_matched + n'.port_rewritten) % 18446744073709551616
      ≡ (n.port_matched + n.port_rewritten + length h) % 18446744073709551616
  sampled : n'.rewrite_samples ≡ take 10 (n.rewrite_samples ++ rewrites h)

push_sample :
    (xs : List (ℕ × ℕ)) (x : ℕ × ℕ) (ys : List (ℕ × ℕ))
    → length xs ≤ 10
    → take 10 ((if ltb (length xs) 10 then xs ++ (x ∷ []) else xs) ++ ys) ≡ take 10 (xs ++ (x ∷ ys))
push_sample xs x ys h = elim (Bool-cases (ltb (length xs) 10)) [
  | inl room ↦ rw (room, append_assoc)
  | inr full ↦
      let n : length xs ≡ 10 = ground arith in
      rw (full, take-append_full 10 xs ys n, take-append_full 10 xs (x ∷ ys) n)
]

checks-After :
    (h : List (ℕ × ℕ)) (n : Option NatInfo)
    → (or_no_info n).port_rewritten < 18446744073709551616
    → length (or_no_info n).rewrite_samples ≤ 10
    → After (or_no_info n) (or_no_info (checks n h)) h
unfolding checks rewrites record_nat_check
checks-After [] n b s = record {
  rewritten = omega arith;
  counted = omega arith;
  sampled = rw append-nil (sym (take_all 10 _ s));
}
checks-After ((orig, ret) ∷ rest) n b s =
    let n0 = or_no_info n in
    ground (
      arith,
      checks-After rest (some (record_match n0)),
      checks-After rest (some (record_rewrite n0 orig ret)),
      push_sample n0.rewrite_samples (orig, ret) (rewrites rest),
      length-append n0.rewrite_samples ((orig, ret) ∷ []),
    )

-- After any history of fewer than 2 ^ 64 port checks at a fresh hop: the checks are all counted,
-- the rewritten ones apart; NAT is reported exactly if some port was rewritten; and the samples are
-- the first ten rewritten pairs, in order.
pub checks-fresh :
    (h : List (ℕ × ℕ))
    → length h < 18446744073709551616
    → let n = or_no_info (checks none h) in
      (total_checks n ≡ length h)
      × (n.port_rewritten ≡ length (rewrites h))
      × (has_nat n ≡ ltb 0 (length (rewrites h)))
      × (n.rewrite_samples ≡ take 10 (rewrites h))
unfolding total_checks has_nat
checks-fresh h b =
    let a = checks-After h none (omega arith) (omega arith) in
    let r = a.rewritten in let c = a.counted in ground (arith, a, length-rewrites-le h)
