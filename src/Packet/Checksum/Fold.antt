-- ===== src/Packet/Checksum/Fold.antt =====
-- The folded sum is the sum modulo 65535, in 16 bits; the loop ends within its fuel.
use ftpn.Packet.Checksum.{u32_limit, fold_sum}
use ftpn.Prelude.{ℕ, ◌+◌, ◌*◌, ◌/◌, ◌%◌, ◌<◌, ◌≡◌, arith, inl, inr, ◌==◌, Bool-cases}

-- The loop has ended: nothing is left above 16 bits. The value is the sum modulo 65535, and 0 for 0
-- only.
pub record Folded (sum f : ℕ) : Type 0 where
  pub small : f < 65536
  pub times : ℕ
  pub same : sum ≡ f + 65535 * times
  pub positive : 0 < sum → 0 < f

-- One pass lowers the sum by a multiple of 65535.
pass : (sum : ℕ) → sum % 65536 + sum / 65536 + 65535 * (sum / 65536) ≡ sum
pass sum = omega arith

-- Two passes are enough for a uint32_t: the loop has ended then.
pub fold_sum-Folded : (sum : ℕ) → sum < u32_limit → Folded sum (fold_sum 2 sum)
unfolding fold_sum
fold_sum-Folded sum h = elim (Bool-cases (sum / 65536 == 0)) [
  | inl e ↦
      rw e (record { small = ground (arith, e); times = 0; same = omega arith; positive = λ p. p })
  | inr e ↦
      let once = sum % 65536 + sum / 65536 in
      elim (Bool-cases (once / 65536 == 0)) [
        | inl f ↦
            rw (e, f)
              (record {
                small = ground (arith, f);
                times = sum / 65536;
                same = omega (arith, pass sum);
                positive = λ p. ground (arith, e);
              })
        | inr f ↦
            rw (e, f)
              (record {
                small = ground (arith, h);
                times = sum / 65536 + once / 65536;
                same = omega (arith, pass sum, pass once);
                positive = λ p. ground (arith, e, f);
              })
      ]
]
