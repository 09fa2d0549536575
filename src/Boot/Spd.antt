-- ===== src/Boot/Spd.antt =====
-- The memory audit: boot/spectre-boot/src/spd.rs. The bus is a record of its two transactions over its
-- own state. Bytes are below 256; sums of sizes wrap at 2 ^ 64.
pub mod Capacities
pub mod Audit
use whisez_os.Prelude.{
  ℕ, zero, suc, ◌+◌, ◌-◌, ◌*◌, ◌/◌, ◌%◌, ◌^◌, Bool, true, false, not, ◌&&◌, ◌||◌, Option, none,
  some, List, [], ◌∷◌, ◌==◌, ltb, leb, if◌then◌else◌, min,
}
use whisez_os.Prelude.Results.{Result, ok, err}

abbrev pub spd_addr_first : ℕ
spd_addr_first = 0x50

abbrev pub spd_addr_last : ℕ
spd_addr_last = 0x57

abbrev pub min_ram_bytes : ℕ
min_ram_bytes = 8 * 1024 * 1024 * 1024

abbrev pub map_tolerance_bytes : ℕ
map_tolerance_bytes = 1024 * 1024 * 1024

pub data DramKind : Type 0 where
  ddr4 ddr5 : DramKind
  unknown : ℕ → DramKind

unfoldable pub from_byte : ℕ → DramKind
from_byte b = if b == 0x0C then ddr4 else if b == 0x12 then ddr5 else unknown b

pub record Module : Type 0 where
  pub slot : ℕ
  pub kind : DramKind
  pub capacity_bytes : ℕ

pub data MemoryFault : Type 0 where
  no_modules_detected : MemoryFault
  below_minimum map_mismatch : ℕ → ℕ → MemoryFault

-- A bus with the states `B`: `read_byte addr offset`, and `set_page addr page`.
pub record SmBus (B : Type 0) : Type 0 where
  pub read_byte : ℕ → ℕ → B → Option ℕ × B
  pub set_page : ℕ → ℕ → B → Option (Unit {0}) × B

-- A chain of transactions, which `?` ends where one is not acknowledged.
abbrev pub Reading : Type 0 → Type 0 → Type 0
Reading B A = B → Option A × B

infixl 5 ◌>>=◌ ◌>>◌
abbrev pub ◌>>=◌ : {B A C : Type 0} → Reading B A → (A → Reading B C) → Reading B C
◌>>=◌ m f b = let (a, b') = m b in elim a [ none ↦ (none, b') | some x ↦ f x b' ]

abbrev pub ◌>>◌ : {B C : Type 0} → Reading B (Unit {0}) → Reading B C → Reading B C
m >> k = m >>= λ _. k

abbrev pub answer : {B A : Type 0} → Option A → Reading B A
answer a b = (a, b)

-- In megabits; `n` is four bits wide.
unfoldable pub ddr4_die_mbits : ℕ → Option ℕ
ddr4_die_mbits n =
    if n == 0
    then some 256
    else if n == 1
    then some 512
    else if leb 2 n && leb n 7
    then some (1024 * 2 ^ (n - 2))
    else if n == 8
    then some (16 * 1024)
    else if n == 9
    then some (32 * 1024)
    else none

-- In gigabits; `n` is five bits wide.
unfoldable pub ddr5_die_gbits : ℕ → Option ℕ
ddr5_die_gbits n =
    if n == 1
    then some 4
    else if n == 2
    then some 8
    else if n == 3
    then some 12
    else if n == 4
    then some 16
    else if n == 5
    then some 24
    else if n == 6
    then some 32
    else if n == 7
    then some 48
    else if n == 8
    then some 64
    else none

-- What the three bytes of a DDR4 module say, 4, 12 and 13.
unfoldable pub ddr4_decode : ℕ → ℕ → ℕ → Option ℕ
ddr4_decode byte4 byte12 byte13 =
    let sdram_width : ℕ = 4 * 2 ^ (byte12 % 8) in
    let ranks : ℕ = byte12 / 8 % 8 + 1 in
    let bus_width : ℕ = 8 * 2 ^ (byte13 % 8) in
    elim (ddr4_die_mbits (byte4 % 16)) [
      | none ↦ none
      | some die_mbits ↦
          if sdram_width == 0 || bus_width == 0
          then none
          else some (die_mbits / 8 * (bus_width / sdram_width) * ranks * 2 ^ 20)
    ]

-- The same of a DDR5 module, with the bytes 4, 6 and 234.
unfoldable pub ddr5_decode : ℕ → ℕ → ℕ → Option ℕ
ddr5_decode byte4 byte6 byte234 =
    let sdram_width : ℕ = 4 * 2 ^ (byte6 / 32 % 8) in
    let channels : ℕ = byte234 / 32 % 4 + 1 in
    let channel_width : ℕ = 8 * 2 ^ (byte234 % 8) in
    elim (ddr5_die_gbits (byte4 % 32)) [
      | none ↦ none
      | some die_gbits ↦
          if sdram_width == 0
          then none
          else some (die_gbits / 8 * (channel_width / sdram_width) * channels * 2 ^ 30)
    ]

abbrev pub push_found : Option Module → List Module → List Module
push_found none found = found
push_found (some m) found = m ∷ found

module _ {B : Type 0} (bus : SmBus B) where
  unfoldable pub ddr4_capacity : ℕ → Reading B ℕ
  ddr4_capacity addr = do
    byte4 ← bus.read_byte addr 0x04
    byte12 ← bus.read_byte addr 0x0C
    byte13 ← bus.read_byte addr 0x0D
    answer (ddr4_decode byte4 byte12 byte13)

  unfoldable pub ddr5_capacity : ℕ → Reading B ℕ
  ddr5_capacity addr = do
    bus.set_page addr 0
    byte4 ← bus.read_byte addr 0x04
    byte6 ← bus.read_byte addr 0x06
    byte234 ← bus.read_byte addr 0xEA
    answer (ddr5_decode byte4 byte6 byte234)

  unfoldable pub capacity : DramKind → ℕ → Reading B ℕ
  capacity ddr4 addr = ddr4_capacity addr
  capacity ddr5 addr = ddr5_capacity addr
  capacity (unknown k) addr = answer none

  -- The body of the loop: the module at an address, or none where the loop goes on with the next.
  unfoldable pub probe : ℕ → Reading B Module
  probe addr = do
    kind_byte ← bus.read_byte addr 0x02
    capacity_bytes ← capacity (from_byte kind_byte) addr
    answer (
        some (record {
          slot = addr - spd_addr_first;
          kind = from_byte kind_byte;
          capacity_bytes = capacity_bytes;
        }))

  -- The addresses from `addr` on, `n` of them.
  unfoldable pub enumerate_from : ℕ → ℕ → B → List Module × B
  enumerate_from zero addr b = ([], b)
  enumerate_from (suc n) addr b =
      let (found, b') = probe addr b in
      let (rest, b'') = enumerate_from n (addr + 1) b' in (push_found found rest, b'')

  unfoldable pub enumerate : B → List Module × B
  enumerate b = enumerate_from (spd_addr_last - spd_addr_first + 1) spd_addr_first b

unfoldable pub spd_total : List Module → ℕ
spd_total [] = 0
spd_total (m ∷ ms) = (m.capacity_bytes + spd_total ms) % 2 ^ 64

unfoldable pub audit : List Module → ℕ → Bool → Result MemoryFault ℕ
audit modules map_conventional smbus_available =
    let total = spd_total modules in
    let floor =
      if ltb map_conventional min_ram_bytes
      then err (below_minimum map_conventional min_ram_bytes)
      else ok map_conventional in
    let checked : Result MemoryFault ℕ =
      if ltb (min (map_conventional + map_tolerance_bytes) (2 ^ 64 - 1)) total
      then err (map_mismatch total map_conventional)
      else floor in
    if smbus_available
    then elim modules [ [] ↦ err no_modules_detected | m ∷ ms ↦ checked ]
    else floor
