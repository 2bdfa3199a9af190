-- ===== src/State/TtlManip/Hysteresis.antt =====
-- When a hop becomes suspected, and when it stops being so. All of it holds for any floats.
use ttl.Base.{
  ℕ, ◌+◌, ◌≤◌, ◌<◌, ◌≡◌, refl, true, false, none, some, List, [], ◌∷◌, ◌++◌, length, arith,
}
use ttl.Base.Float.{Float}
use ttl.State.TtlManip
use ttl.State.TtlManip.{
  TtlManipInfo, fresh, record_sample, update_detection, count_sample, count_no_decrement,
}

module _ (f64 : Float) where
  -- The counter of negative checks runs only while the hop is suspected, and stays below ten; a
  -- sample without a decrement is anomalous.
  pub record IsValid (t : TtlManipInfo f64) : Type 0 where
    pub checks_below : t.negative_checks < 10
    pub checks_idle : t.suspected ≡ false → t.negative_checks ≡ 0
    pub no_decrement_anomalous : t.no_decrement_samples ≤ t.anomalous_samples

  pub fresh-IsValid : IsValid (fresh f64)
  unfolding fresh
  fresh-IsValid = ground arith

  -- A sample keeps the state valid, as long as the anomalous samples do not overflow: fewer than ten
  -- negative checks, none of them while the hop is not suspected, and every sample without a
  -- decrement counted as anomalous.
  pub record_sample-IsValid :
      (sent quoted : ℕ) (t : TtlManipInfo f64)
      → t.anomalous_samples + 1 < 18446744073709551616
      → IsValid t
      → IsValid (record_sample f64 sent quoted t)
  unfolding record_sample
  record_sample-IsValid sent quoted t b v = ground arith

  -- One normal sample (a quoted TTL of 0 or 1) of a suspected hop.
  normal :
      (sent quoted : ℕ) (t : TtlManipInfo f64)
      → quoted ≤ 1
      → t.suspected ≡ true
      → t.negative_checks < 9
      → let t' = record_sample f64 sent quoted t in
        (t'.suspected ≡ true) × (t'.negative_checks ≡ t.negative_checks + 1)
  unfolding record_sample
  normal sent quoted t q s n = ground arith

  tenth :
      (sent quoted : ℕ) (t : TtlManipInfo f64)
      → quoted ≤ 1
      → t.suspected ≡ true
      → t.negative_checks ≡ 9
      → let t' = record_sample f64 sent quoted t in
        (t'.suspected ≡ false)
        × (t'.reason ≡ none)
        × (t'.anomalous_samples ≡ 0)
        × (t'.no_decrement_samples ≡ 0)
        × (t'.negative_checks ≡ 0)
  unfolding record_sample
  tenth sent quoted t q s n = ground arith

  -- Samples in a row, each the TTL that was sent and the one quoted.
  pub samples : List (ℕ × ℕ) → TtlManipInfo f64 → TtlManipInfo f64
  samples [] t = t
  samples ((sent, quoted) ∷ rest) t = samples rest (record_sample f64 sent quoted t)

  -- Every sample quotes a TTL of 0 or 1.
  abbrev pub AllNormal : List (ℕ × ℕ) → Type 0
  AllNormal [] = Unit
  AllNormal ((sent, quoted) ∷ rest) = (quoted ≤ 1) × AllNormal rest

  samples-count :
      (xs : List (ℕ × ℕ)) (t : TtlManipInfo f64)
      → AllNormal xs
      → t.suspected ≡ true
      → t.negative_checks + length xs ≤ 9
      → let t' = samples xs t in
        (t'.suspected ≡ true) × (t'.negative_checks ≡ t.negative_checks + length xs)
  unfolding samples
  samples-count [] t q s b = (s, omega arith)
  samples-count ((sent, quoted) ∷ rest) t q s b =
      ground (
        arith,
        normal sent quoted t q.0 s,
        samples-count rest (record_sample f64 sent quoted t) q.1,
      )

  samples-append :
      (xs : List (ℕ × ℕ)) (sent quoted : ℕ) (t : TtlManipInfo f64)
      → samples (xs ++ ((sent, quoted) ∷ [])) t ≡ record_sample f64 sent quoted (samples xs t)
  unfolding samples
  samples-append [] sent quoted t = refl
  samples-append ((sent', quoted') ∷ rest) sent quoted t =
      samples-append rest sent quoted (record_sample f64 sent' quoted' t)

  -- A suspected hop with no negative check yet stays suspected for up to nine normal samples in a
  -- row, each quoting a TTL of 0 or 1, and is cleared by one more after nine, with its reason and
  -- its counts of anomalies; whatever it was suspected for, and whatever the rate of anomalies.
  pub samples-clear :
      (xs ys : List (ℕ × ℕ)) (sent quoted : ℕ) (t : TtlManipInfo f64)
      → AllNormal xs
      → AllNormal ys
      → quoted ≤ 1
      → t.suspected ≡ true
      → t.negative_checks ≡ 0
      → length xs ≤ 9
      → length ys ≡ 9
      → let t' = samples (ys ++ ((sent, quoted) ∷ [])) t in
        ((samples xs t).suspected ≡ true)
        × (t'.suspected ≡ false)
        × (t'.reason ≡ none)
        × (t'.anomalous_samples ≡ 0)
        × (t'.no_decrement_samples ≡ 0)
  samples-clear xs ys sent quoted t p q last_normal s z few nine_long =
      let nine = samples-count ys t q s (omega arith) in
      let last = tenth sent quoted (samples ys t) last_normal nine.0 (omega arith) in
      let some_n = samples-count xs t p s (omega arith) in
      rw (samples-append ys sent quoted t) (some_n.0, last.0, last.1, last.2, last.3)

  -- In a valid state of fewer than four samples, one more sample raises no suspicion.
  pub record_sample-calm :
      (sent quoted : ℕ) (t : TtlManipInfo f64)
      → IsValid t
      → t.normal_samples + t.anomalous_samples < 4
      → t.suspected ≡ false
      → (record_sample f64 sent quoted t).suspected ≡ false
  unfolding record_sample
  record_sample-calm sent quoted t v few calm = ground arith

  -- In a valid state of four samples or more, whose counters do not overflow, a sample whose TTL was
  -- not decremented, beyond the first hop, always raises a suspicion, with the reason that says so.
  pub record_sample-no_decrement :
      (sent : ℕ) (t : TtlManipInfo f64)
      → IsValid t
      → t.normal_samples + t.anomalous_samples + 1 < 18446744073709551616
      → 4 ≤ t.normal_samples + t.anomalous_samples
      → 1 < sent
      → let t' = record_sample f64 sent sent t in
        (t'.suspected ≡ true) × (t'.reason ≡ some TtlManip.not_decremented)
  unfolding record_sample TtlManip.build_reason
  record_sample-no_decrement sent t v b many h = ground arith
