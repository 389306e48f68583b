-- ===== src/Top/Range.antt =====
-- `cidrToRange` of internal/top/vpc/dao/dao.go, on numbers of 32 bits.
use vpc_workflow_demo.Prelude.{
  ap, ◌∙◌, ℕ, zero, suc, ◌+◌, ◌-◌, ◌*◌, ◌/◌, ◌%◌, ◌≤◌, ◌<◌, ◌≡◌, refl, String, Option, none, some,
  ◌||◌, ◌==◌, if◌then◌else◌, arith,
}
use vpc_workflow_demo.Top.World.{TopEnv, Network, IpNet}

abbrev pub uint32_size : ℕ
uint32_size = 4294967296

-- `a << n` on numbers without a bound, and `1 << n`.
abbrev pub shl : ℕ → ℕ → ℕ
shl a zero = a
shl a (suc n) = 2 * shl a n

abbrev pub pow2 : ℕ → ℕ
pow2 n = shl 1 n

-- `(1 << n) - 1` on 32 bits.
abbrev pub low_mask : ℕ → ℕ
low_mask n = (pow2 n % uint32_size + (uint32_size - 1)) % uint32_size

-- `a | b` on numbers of `k` bits.
unfoldable pub bit_or : ℕ → ℕ → ℕ → ℕ
bit_or zero a b = 0
bit_or (suc k) a b = (if (a % 2 == 1) || (b % 2 == 1) then 1 else 0) + 2 * bit_or k (a / 2) (b / 2)

-- `none` is the panic of `Uint32` on a nil slice.
unfoldable pub range_of : Option IpNet → Option (ℕ × ℕ)
unfolding bit_or
range_of none = some (0, 0)
range_of (some IpNet.v6) = none
range_of (some (IpNet.v4 n)) = some (n.address, bit_or 32 n.address (low_mask (32 - n.ones)))

unfoldable pub cidr_to_range : TopEnv → String → Option (ℕ × ℕ)
unfolding range_of
cidr_to_range e cidr = range_of (e.parse_cidr cidr)

-- What `net.ParseCIDR` documents of its network: the prefix has at most 32 bits, and the bits of the
-- address after it are zero.
pub record IsNetwork (n : Network) : Type 0 where
  pub prefix : n.ones ≤ 32
  pub block : ℕ
  pub masked : n.address ≡ shl block (32 - n.ones)
  pub fits : n.address + pow2 (32 - n.ones) ≤ uint32_size

pow2_pos : (n : ℕ) → 1 ≤ pow2 n
pow2_pos zero = omega arith
pow2_pos (suc n) = omega (arith, pow2_pos n)

pow2_mono : (d h k : ℕ) → h + d ≡ k → pow2 h ≤ pow2 k
pow2_mono zero h k e =
    let same : pow2 h ≡ pow2 k = ap pow2 (omega (arith, e)) in omega (arith, same)
pow2_mono (suc d) h k e = omega (arith, pow2_mono d (suc h) k (omega (arith, e)))

low_mask-eq : (h : ℕ) → h ≤ 32 → low_mask h ≡ pow2 h - 1
low_mask-eq h fits =
    let below : pow2 h ≤ uint32_size = pow2_mono (32 - h) h 32 (omega (arith, fits)) in
    omega (arith, below, pow2_pos h)

bit_or-zero : (k a : ℕ) → a < pow2 k → bit_or k a 0 ≡ a
unfolding bit_or
bit_or-zero zero a h = omega (arith, h)
bit_or-zero (suc k) a h =
    let rest = bit_or-zero k (a / 2) (omega (arith, h)) in ground (arith, rest)

-- The bits of a mask are added to a number that has none of them.
bit_or-mask :
    (k h q : ℕ)
    → shl q h + pow2 h ≤ pow2 k
    → bit_or k (shl q h) (pow2 h - 1) ≡ shl q h + (pow2 h - 1)
unfolding bit_or
bit_or-mask k zero q b = bit_or-zero k q (omega (arith, b)) ∙ omega arith
bit_or-mask zero (suc h) q b = absurd (omega (arith, b, pow2_pos h))
bit_or-mask (suc k) (suc h) q b =
    let rest = bit_or-mask k h q (omega (arith, b)) in
    let half : 2 * shl q h / 2 ≡ shl q h = omega arith in
    let mask : (2 * pow2 h - 1) / 2 ≡ pow2 h - 1 = omega (arith, pow2_pos h) in
    let odd : (2 * pow2 h - 1) % 2 ≡ 1 = omega (arith, pow2_pos h) in
    let even : 2 * shl q h % 2 ≡ 0 = omega arith in
    rw (half, mask, odd, even, rest) (omega (arith, pow2_pos h))

-- For a network of IPv4 as `net.ParseCIDR` documents it, there is a range, which begins with the
-- network's address, and holds as many addresses as its bits after the prefix can tell apart, all of
-- 32 bits.
pub cidr_to_range-network :
    (e : TopEnv) (cidr : String) (n : Network)
    → e.parse_cidr cidr ≡ some (IpNet.v4 n)
    → IsNetwork n
    → (r : ℕ × ℕ) × (cidr_to_range e cidr ≡ some r)
      × (r.0 ≡ n.address)
      × (r.1 + 1 ≡ n.address + pow2 (32 - n.ones))
      × (r.0 ≤ r.1)
      × (r.1 < uint32_size)
unfolding cidr_to_range range_of
cidr_to_range-network e cidr n parsed h =
    let host = 32 - n.ones in
    let mask : low_mask host ≡ pow2 host - 1 = low_mask-eq host (omega arith) in
    let end : bit_or 32 n.address (low_mask host) ≡ n.address + (pow2 host - 1) =
      rw (mask, h.masked) (bit_or-mask 32 host h.block (rw (← h.masked) (omega (arith, h.fits)))) in
    rw parsed (
      (n.address, bit_or 32 n.address (low_mask host)),
      refl,
      refl,
      omega (arith, end, pow2_pos host),
      omega (arith, end),
      omega (arith, end, h.fits, pow2_pos host),
    )
