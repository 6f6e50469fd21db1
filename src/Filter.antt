-- ===== src/Filter.antt =====
-- Reading a filter, utils.c: what the scanned numbers of a line denote.
pub mod Masks
pub mod Octets
pub mod Ranges
mod Tests
use choose_cut.Base.{
  ℕ, zero, suc, ◌+◌, ◌-◌, ◌*◌, ◌/◌, ◌%◌, ◌^◌, Bool, Option, none, some, bit_and, bit_or,
}
use choose_cut.Base.{
  ltb, leb, ◌==◌, ◌||◌, ◌&&◌, not, if◌then◌else◌, ◌>>=◌, ◌>>◌, assert, update, u32, add32, sub32,
}
use choose_cut.Rule.{Range}

-- The loops that store into the last octets, from octet `i` down.
pub store_octets : ℕ → ℕ → ℕ → (ℕ → ℕ) → (ℕ → ℕ)
store_octets zero i v p = p
store_octets (suc n) i v p = store_octets n (i - 1) v (update p i v)

-- Four octets as one number.
abbrev pub join_octets : (ℕ → ℕ) → ℕ
join_octets p =
    add32 (u32 (add32 (u32 (add32 (u32 (p 0 * 2 ^ 8)) (p 1) * 2 ^ 8)) (p 2) * 2 ^ 8)) (p 3)

-- `ptrange[3-masklit1]` with its low bits cleared, and with these set.
abbrev pub clear_low : ℕ → ℕ → ℕ
clear_low bits octet = bit_and octet (2 ^ 32 - 1 - (2 ^ bits - 1))

abbrev pub set_low : ℕ → ℕ → ℕ
set_low bits octet = bit_or octet (2 ^ bits - 1)

-- `ReadIPRange` from the octets and the length of the prefix that it has read; `none` is a store
-- before the octets, which a length above 32 brings about.
unfoldable pub read_ip_range : (ℕ → ℕ) → ℕ → Option Range
unfolding store_octets
read_ip_range p len =
    let mask = sub32 32 len in
    let whole = mask / 8 in
    let bits = mask % 8 in
    do
      assert (ltb whole 4 || ((whole == 4) && (bits == 0)))
      let zeroed = store_octets whole 3 0 p in
          let start =
            if bits == 0
            then zeroed
            else update zeroed (3 - whole) (clear_low bits (zeroed (3 - whole))) in
          let filled = store_octets whole 3 255 start in
          let end =
            if bits == 0
            then filled
            else update filled (3 - whole) (set_low bits (filled (3 - whole))) in
          some (record { low = join_octets start; high = join_octets end })

-- `ReadPort` and `ReadProtocol` from the numbers that they have read.
abbrev pub read_port : ℕ → ℕ → Range
read_port from to = record { low = from; high = to }

abbrev pub read_protocol : ℕ → ℕ → Range
read_protocol proto len =
    if len == 255 then record { low = proto; high = proto } else record { low = 0; high = 255 }
