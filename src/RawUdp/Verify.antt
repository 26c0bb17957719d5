-- ===== src/RawUdp/Verify.antt =====
-- The receiver's test of a header whose checksum field holds the answer of `ipv4check`.
use ibverb_prototype.Prelude.{
  ℕ, zero, suc, ◌+◌, ◌-◌, ◌%◌, ◌^◌, ◌<◌, ◌≡◌, refl, ap, ◌∙◌, arith, some, All,
}
use ibverb_prototype.Crc.Correct.{IsByte}
use ibverb_prototype.RawUdp.{IpHdr, ip_bytes, ipv4check}
use ibverb_prototype.RawUdp.Check.{
  ones_sum, total, end_around, ones_sum-end_around, ipv4check-ones_sum,
}

-- The members in their ranges; those of two and four bytes are read as such.
pub record IsIpHdr (h : IpHdr) : Type 0 where
  pub ihl : h.ihl < 2 ^ 4
  pub some_length : 0 < h.ihl
  pub version : h.version < 2 ^ 4
  pub tos : h.tos < 2 ^ 8
  pub ttl : h.ttl < 2 ^ 8
  pub protocol : h.protocol < 2 ^ 8

pub with_check : (h : IpHdr) (c : ℕ) → IsIpHdr h → IsIpHdr (record h { check = c })
with_check h c v = record {
  ihl = v.ihl;
  some_length = v.some_length;
  version = v.version;
  tos = v.tos;
  ttl = v.ttl;
  protocol = v.protocol;
}

pub ip_bytes-IsByte : (h : IpHdr) → IsIpHdr h → All IsByte (ip_bytes h)
unfolding ip_bytes
ip_bytes-IsByte h v = omega (arith, v.ihl, v.version, v.tos, v.ttl, v.protocol)

-- The answer for a header.
pub ipv4check-ip_bytes :
    (h : IpHdr) → IsIpHdr h → ipv4check (ip_bytes h) 20 ≡ some (2 ^ 16 - 1 - ones_sum (ip_bytes h))
ipv4check-ip_bytes h v =
    ipv4check-ones_sum (ip_bytes h) 9 (unfold ip_bytes in refl) (omega arith) (ip_bytes-IsByte h v)

-- The sum of a header is that without its checksum, and the checksum.
total-check :
    (h : IpHdr) (c : ℕ)
    → c < 2 ^ 16
    → total (ip_bytes (record h { check = c })) ≡ total (ip_bytes (record h { check = 0 })) + c
unfolding total ip_bytes
total-check h c fits = omega arith

total-positive : (h : IpHdr) → IsIpHdr h → 0 < total (ip_bytes h)
unfolding total ip_bytes
total-positive h v = omega (arith, v.some_length)

end_around_positive : (s : ℕ) → 0 < s → end_around s ≡ (s - 1) % 65535 + 1
end_around_positive zero h = absurd (omega arith)
end_around_positive (suc s) h = omega arith

cancels : (s c : ℕ) → 0 < s → c ≡ 2 ^ 16 - 1 - end_around s → 2 ^ 16 - 1 - end_around (s + c) ≡ 0
cancels s c pos e =
    omega (arith, end_around_positive s pos, end_around_positive (s + c) (omega arith))

-- For a header with its members in their ranges: when the checksum field holds what `ipv4check` returned for
-- the header with this field cleared, `ipv4check` of the header is 0.
pub ipv4check-verifies :
    (h : IpHdr) (answer : ℕ)
    → IsIpHdr h
    → ipv4check (ip_bytes (record h { check = 0 })) 20 ≡ some answer
    → ipv4check (ip_bytes (record h { check = answer })) 20 ≡ some 0
ipv4check-verifies h answer v e =
    let cleared : IpHdr = record h { check = 0 } in
    let filled : IpHdr = record h { check = answer } in
    let first = ipv4check-ip_bytes cleared (with_check h 0 v) in
    let same : answer ≡ 2 ^ 16 - 1 - ones_sum (ip_bytes cleared) = cc in
    let around =
      ones_sum-end_around (ip_bytes cleared) (ip_bytes-IsByte cleared (with_check h 0 v)) in
    ipv4check-ip_bytes filled (with_check h answer v)
    ∙ ap (λ o. some (2 ^ 16 - 1 - o))
        (ones_sum-end_around (ip_bytes filled) (ip_bytes-IsByte filled (with_check h answer v))
          ∙ ap end_around (total-check h answer (omega (arith, same))))
    ∙ ap some (
        cancels (total (ip_bytes cleared)) answer (total-positive cleared (with_check h 0 v))
          (same ∙ ap (λ o. 2 ^ 16 - 1 - o) around))
