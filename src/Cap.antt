-- ===== src/Cap.antt =====
-- Capability tokens: kernel/spectre-kernel/src/cap.rs, lines 24 to 151.
-- A token is a number below 2 ^ 128 and a set of rights is the word of its bits. The generator of
-- tokens, `entropy::csprng_u128`, is an argument; the counter that feeds it is passed along.
pub mod Delegation
use whisez_os.Prelude.{
  ℕ, ◌+◌, ◌/◌, ◌%◌, ◌^◌, bit_xor, Bool, true, false, not, ◌&&◌, Option, none, some, ◌==◌,
  if◌then◌else◌,
}
use whisez_os.Prelude.Bits.{has_all}

-- The bits of `Rights` that the kernel's modules name.
abbrev pub right_send : ℕ
right_send = 2 ^ 3

abbrev pub right_receive : ℕ
right_receive = 2 ^ 4

abbrev pub right_delegate : ℕ
right_delegate = 2 ^ 5

abbrev pub right_game_mode : ℕ
right_game_mode = 2 ^ 9

-- The kernel object that a token names.
pub data Object : Type 0 where
  endpoint : ℕ → Object
  memory_region : ℕ → ℕ → Object
  irq_vector : ℕ → Object
  process : ℕ → Object
  game_mode : Object

-- The derived `PartialEq` of `Object`.
unfoldable pub object_eq : Object → Object → Bool
object_eq (endpoint a) (endpoint b) = a == b
object_eq (memory_region a l) (memory_region b k) = (a == b) && (l == k)
object_eq (irq_vector a) (irq_vector b) = a == b
object_eq (process a) (process b) = a == b
object_eq game_mode game_mode = true
object_eq _ _ = false

pub record Capability : Type 0 where
  pub token : ℕ  -- u128
  pub object : Object
  pub rights : ℕ  -- u32

-- The token counter wraps as `AtomicU64::fetch_add` does.
unfoldable pub next_token : (ℕ → ℕ) → ℕ → ℕ × ℕ
next_token csprng counter = (csprng counter, (counter + 1) % 2 ^ 64)

unfoldable pub mint : (ℕ → ℕ) → ℕ → Object → ℕ → Capability × ℕ
unfolding next_token
mint csprng counter object rights =
    let (token, counter') = next_token csprng counter in
    (record { token = token; object = object; rights = rights }, counter')

unfoldable pub permits : Capability → ℕ → Bool
permits self required = has_all self.rights required

unfoldable pub derive : (ℕ → ℕ) → ℕ → Capability → ℕ → Option Capability × ℕ
unfolding next_token
derive csprng counter self requested =
    if not (has_all self.rights right_delegate)
    then (none, counter)
    else if not (has_all self.rights requested)
    then (none, counter)
    else let (token, counter') = next_token csprng counter in
      (some (record { token = token; object = self.object; rights = requested }), counter')

-- The 64-bit handle of a token: its two halves, folded.
unfoldable pub handle : Capability → ℕ
handle self = bit_xor (self.token % 2 ^ 64) ((self.token / 2 ^ 64) % 2 ^ 64)
