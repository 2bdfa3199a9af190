-- ===== src/State/Responder/Window.antt =====
-- state/session.rs, `ResponderStats`: what is left of a history of responses.
use ttl.Base.{ℕ, ◌+◌, ◌%◌, ◌≤◌, ◌≡◌, refl, ◌∙◌, some, List, [], ◌∷◌, map, length, arith}
use ttl.Base.Net.{IpAddr}
use ttl.Base.Float.{Float}
use ttl.Base.Windows.{push_capped, last, pushes, pushes-last}
use ttl.State.Responder
use ttl.State.Responder.{ResponderStats, record_response, update_jitter, update_times}

-- Every entry lies between the two bounds.
abbrev pub AllWithin : ℕ → ℕ → List ℕ → Type 0
AllWithin lo hi [] = Unit
AllWithin lo hi (x ∷ xs) = (lo ≤ x) × (x ≤ hi) × AllWithin lo hi xs

module _ (f64 : Float) where
  -- The round-trip times in order.
  pub answers : ResponderStats f64 → List ℕ → ResponderStats f64
  answers s [] = s
  answers s (rtt ∷ rtts) = answers (record_response f64 rtt s) rtts

  -- What one response does, apart from the floats.
  one_response :
      (s : ResponderStats f64) (rtt : ℕ)
      → let t = record_response f64 rtt s in
        (t.received ≡ (s.received + 1) % 18446744073709551616)
        × (t.samples ≡ push_capped 256 s.samples rtt)
        × (t.recent ≡ push_capped 60 s.recent (some rtt))
        × (t.min_rtt ≤ s.min_rtt)
        × (t.min_rtt ≤ rtt)
        × (s.max_rtt ≤ t.max_rtt)
        × (rtt ≤ t.max_rtt)
  unfolding record_response
  one_response s rtt = ground arith

  answers-samples :
      (s : ResponderStats f64) (rtts : List ℕ)
      → (answers s rtts).samples ≡ pushes 256 s.samples rtts
  unfolding answers pushes
  answers-samples s [] = refl
  answers-samples s (rtt ∷ rtts) =
      let one = one_response s rtt in answers-samples (record_response f64 rtt s) rtts ∙ rw (one.1)

  answers-recent :
      (s : ResponderStats f64) (rtts : List ℕ)
      → (answers s rtts).recent ≡ pushes 60 s.recent (map some rtts)
  unfolding answers pushes
  answers-recent s [] = refl
  answers-recent s (rtt ∷ rtts) =
      let one = one_response s rtt in answers-recent (record_response f64 rtt s) rtts ∙ rw (one.2)

  answers-received :
      (s : ResponderStats f64) (rtts : List ℕ)
      → s.received % 18446744073709551616 ≡ s.received
      → (answers s rtts).received ≡ (s.received + length rtts) % 18446744073709551616
  unfolding answers
  answers-received s [] h = omega arith
  answers-received s (rtt ∷ rtts) h =
      let one = one_response s rtt in
      ground (arith, answers-received (record_response f64 rtt s) rtts)

  answers-range :
      (s : ResponderStats f64) (rtts : List ℕ)
      → let t = answers s rtts in
        (t.min_rtt ≤ s.min_rtt) × (s.max_rtt ≤ t.max_rtt) × AllWithin t.min_rtt t.max_rtt rtts
  unfolding answers
  answers-range s [] = (omega arith, omega arith, tt)
  answers-range s (rtt ∷ rtts) =
      let one = one_response s rtt in
      let rest = answers-range (record_response f64 rtt s) rtts in
      (omega arith, omega arith, (omega arith, omega arith, rest.2))

  -- After any history of responses from a new responder: they are counted modulo 2 ^ 64; the samples
  -- are the last 256 times, and the sparkline the last 60; and each time lies between the smallest
  -- and the largest recorded.
  pub answers-window :
      (ip : IpAddr) (rtts : List ℕ)
      → let s = answers (Responder.new f64 ip) rtts in
        (s.received ≡ length rtts % 18446744073709551616)
        × (s.samples ≡ last 256 rtts)
        × (s.recent ≡ last 60 (map some rtts))
        × AllWithin s.min_rtt s.max_rtt rtts
  unfolding Responder.new last
  answers-window ip rtts =
      let s = Responder.new f64 ip in
      (
        omega (arith, answers-received s rtts refl),
        answers-samples s rtts ∙ pushes-last 256 [] rtts,
        answers-recent s rtts ∙ pushes-last 60 [] (map some rtts),
        (answers-range s rtts).2,
      )
