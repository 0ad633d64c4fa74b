-- ===== src/Address.antt =====
-- fptn/src/common/network/ipv4_generator.h and ipv6_generator.h: the addresses of a virtual network,
-- handed out in turn. An address is its number in host order; a prefix length is 1 to 32 or 1 to 128
-- (shifting by the word's width is undefined in the source). `x & netmask` drops the low bits, which
-- is `x / 2 ^ h * 2 ^ h` for h host bits, and `net | ~netmask` puts ones there.
pub mod Range
mod Runs
use ftpn.Prelude.{
  ℕ, zero, suc, ◌+◌, ◌-◌, ◌*◌, ◌/◌, ◌%◌, ◌^◌, List, [], ◌∷◌, not, ltb, ◌==◌, if◌then◌else◌,
}

pub record Generator : Type 0 where
  pub current : ℕ
  pub net_addr : ℕ
  -- the address that is never handed out: the broadcast or the highest one
  pub last_addr : ℕ
  pub num_available : ℕ

-- IPv4AddressGenerator(netAddress, subnet_mask)
unfoldable pub ipv4_generator : ℕ → ℕ → Generator
ipv4_generator net subnet_mask =
    let size = 2 ^ (32 - subnet_mask) in
    record {
      current = net;
      net_addr = net;
      last_addr = net / size * size + (size - 1);
      num_available = (size + 2 ^ 32 - 2) % 2 ^ 32;
    }

-- IPv6AddressGenerator(net_address, subnet_mask)
unfoldable pub ipv6_generator : ℕ → ℕ → Generator
ipv6_generator net subnet_mask =
    let size = 2 ^ (128 - subnet_mask) in
    let max_addr = net / size * size + (size - 1) in
    record {
      current = net;
      net_addr = net;
      last_addr = max_addr;
      num_available = (max_addr + 2 ^ 128 - net - 1) % 2 ^ 128;
    }

-- GetNextAddress, in a word of `modulus` values. The new address is both the state and the result.
unfoldable pub next_address : ℕ → Generator → Generator
next_address modulus g =
    let new_ip = (g.current + 1) % modulus in
    if ltb new_ip g.last_addr
    then record g { current = new_ip }
    else record g { current = (g.net_addr + 1) % modulus }

-- The constructor's loop of nat::Table: `capacity` addresses but for the server's own. The head of
-- the list is the back of the vector.
unfoldable pub fill_free : ℕ → ℕ → ℕ → Generator → List ℕ → List ℕ
unfolding next_address
fill_free modulus own zero g free = free
fill_free modulus own (suc capacity) g free =
    let g' = next_address modulus g in
    fill_free modulus own capacity g' (if not (g'.current == own) then g'.current ∷ free else free)
