-- ===== src/Probe/RawIp/Verify.antt =====
-- probe/rawip.rs: the checksum of a datagram that was built verifies at its receiver.
use ttl.Base.{
  ℕ, ◌+◌, ◌/◌, ◌%◌, ◌≤◌, ◌<◌, ◌≡◌, ◌≢◌, sym, ap, ◌∙◌, get_or, ◌++◌, length, arith, ◌==◌,
  if◌then◌else◌,
}
use ttl.Base.Bytes.{Bytes, AreBytes, be16}
use ttl.Probe.Checksum.{internet_checksum}
use ttl.Probe.Checksum.Sum.{total}
use ttl.Probe.Checksum.Verify.{internet_checksum-total, internet_checksum-zero}
use ttl.Probe.RawIp.{pseudo_header, datagram, udp_checksum_v4, build_udp_datagram}

module _ (src dst src_port dst_port : ℕ) (payload : Bytes) where
  covered : ℕ → Bytes
  covered checksum =
      pseudo_header src dst (8 + length payload) ++ datagram src_port dst_port checksum payload

  covered-AreBytes :
      (c : ℕ)
      → src_port < 65536
      → dst_port < 65536
      → c < 65536
      → AreBytes payload
      → AreBytes (covered c)
  unfolding covered
  covered-AreBytes c hs hd hc hp = ground arith

  total-covered : (c : ℕ) → c < 65536 → total (covered c) ≡ total (covered 0) + c
  unfolding covered total
  total-covered c h = omega arith

  total-covered_pos : (c : ℕ) → 17 ≤ total (covered c)
  unfolding covered total
  total-covered_pos c = omega arith

  checksum-covered :
      (c : ℕ)
      → udp_checksum_v4 src dst (datagram src_port dst_port c payload)
        ≡ internet_checksum (covered c)
  unfolding udp_checksum_v4 covered
  checksum-covered c =
      ap (λ n. internet_checksum (pseudo_header src dst n ++ datagram src_port dst_port c payload))
        (omega arith)

  -- What the receiver computes over the pseudo-header and the datagram is zero, and the checksum
  -- field is not zero, which would stand for no checksum: for all addresses and ports, and every
  -- payload of at most 65,507 bytes.
  pub build_udp_datagram-verifies :
      src_port < 65536
      → dst_port < 65536
      → AreBytes payload
      → length payload ≤ 65507
      → let packet = build_udp_datagram src dst src_port dst_port payload in
        (udp_checksum_v4 src dst packet ≡ 0)
        × (length packet ≡ 8 + length payload)
        × (be16 (get_or packet 6 0) (get_or packet 7 0) ≢ 0)
  unfolding build_udp_datagram
  build_udp_datagram-verifies hs hd hp n =
      (checksum-covered sent ∙ verified, omega arith, λ e. not_zero (sym word ∙ e))
    where
      c : ℕ
      c = udp_checksum_v4 src dst (datagram src_port dst_port 0 payload)

      sent : ℕ
      sent = if c == 0 then 0xFFFF else c

      checked : (c < 65536) × ((total (covered 0) + c) % 65535 ≡ 0)
      checked = rw (checksum-covered 0) (
          internet_checksum-total (covered 0) (covered-AreBytes 0 hs hd (omega arith) hp)
            (unfold covered in omega arith))

      not_zero : sent ≢ 0
      not_zero e = ground arith

      word : be16 (sent / 256) (sent % 256) ≡ sent
      word = omega arith

      small : sent < 65536
      small = let h = checked.0 in ground arith

      sums : (total (covered 0) + sent) % 65535 ≡ 0
      sums = let h = checked.1 in ground arith

      verified : internet_checksum (covered sent) ≡ 0
      verified =
          internet_checksum-zero (covered sent) (covered-AreBytes sent hs hd small hp)
            (unfold covered in omega arith) (let h = total-covered_pos sent in omega arith)
            (rw (total-covered sent small) sums)
