-- ===== src/Address/Range.antt =====
-- What the generators hand out: a run of consecutive addresses, each once.
use native.Mathlib.Nat.{mod-eq_of_lt, div-add-mod}
use ftpn.Prelude.{
  Bool-cases, inl, inr, ℕ, zero, suc, ◌+◌, ◌-◌, ◌*◌, ◌/◌, ◌%◌, ◌^◌, ◌≤◌, ◌<◌, ◌≡◌, ◌∙◌, List, [],
  ◌∷◌, count, arith, not, ltb, leb, ◌&&◌, ◌==◌, if◌then◌else◌,
}
use ftpn.Address.{Generator, ipv4_generator, ipv6_generator, next_address, fill_free}

-- Inside the range the next address is the successor.
next_address-suc :
    (modulus : ℕ) (g : Generator)
    → g.current + 1 < g.last_addr
    → g.last_addr < modulus
    → next_address modulus g ≡ record g { current = g.current + 1 }
unfolding next_address
next_address-suc modulus g h k =
    rw (mod-eq_of_lt {n = g.current + 1} {m = modulus} (omega arith)) (ground arith)

-- How often an address stands in the filled list.
pub count-fill_free :
    (modulus own capacity : ℕ) (g : Generator) (free : List ℕ) (a : ℕ)
    → g.current + capacity < g.last_addr
    → g.last_addr < modulus
    → count a (fill_free modulus own capacity g free)
      ≡ (if ltb g.current a && leb a (g.current + capacity) && not (a == own) then 1 else 0)
        + count a free
unfolding fill_free
count-fill_free modulus own zero g free a h k = ground arith
count-fill_free modulus own (suc capacity) g free a h k =
    rw (next_address-suc modulus g (omega arith) k) (elim (Bool-cases (g.current + 1 == own)) [
      | inl e ↦ rw e (
          ground (
            arith,
            count-fill_free modulus own capacity (record g { current = g.current + 1 }) free a
                (omega arith) k,
          ))
      | inr e ↦ rw e (
          ground (
            arith,
            count-fill_free modulus own capacity (record g { current = g.current + 1 })
                ((g.current + 1) ∷ free) a (omega arith) k,
          ))
    ])

block_end :
    (net size : ℕ) → net % size ≡ 0 → 0 < size → net / size * size + (size - 1) ≡ net + size - 1
block_end net size h pos = omega (arith, div-add-mod net size)

-- The IPv4 pool of an aligned block of two addresses or more, below 2 ^ 32: if the capacity is not more
-- than the number of available addresses, the pool has the `capacity` addresses behind the network
-- address but for the server's own, each once, and no other. The broadcast address is not among them.
pub count-ipv4_pool :
    (net mask own capacity a : ℕ)
    → 2 ≤ 2 ^ (32 - mask)
    → net % 2 ^ (32 - mask) ≡ 0
    → net + 2 ^ (32 - mask) ≤ 2 ^ 32
    → capacity ≤ (ipv4_generator net mask).num_available
    → count a (fill_free (2 ^ 32) own capacity (ipv4_generator net mask) [])
      ≡ (if ltb net a && leb a (net + capacity) && not (a == own) then 1 else 0)
unfolding ipv4_generator
count-ipv4_pool net mask own capacity a wide aligned fits small =
    count-fill_free (2 ^ 32) own capacity (ipv4_generator net mask) [] a
      (omega (arith, block_end net (2 ^ (32 - mask)) aligned (omega arith)))
      (omega (arith, block_end net (2 ^ (32 - mask)) aligned (omega arith)))
    ∙ omega arith

-- The IPv6 pool of a block below 2 ^ 128, which need not be aligned: if the capacity ends before the last
-- address, the pool has the `capacity` addresses behind the network address but for the server's own,
-- each once, and no other.
pub count-ipv6_pool :
    (net mask own capacity a : ℕ)
    → (ipv6_generator net mask).last_addr < 2 ^ 128
    → net + capacity < (ipv6_generator net mask).last_addr
    → count a (fill_free (2 ^ 128) own capacity (ipv6_generator net mask) [])
      ≡ (if ltb net a && leb a (net + capacity) && not (a == own) then 1 else 0)
unfolding ipv6_generator
count-ipv6_pool net mask own capacity a fits small =
    count-fill_free (2 ^ 128) own capacity (ipv6_generator net mask) [] a small fits ∙ omega arith
