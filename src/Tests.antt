-- ===== src/Tests.antt =====
-- Runs of the models on concrete values, with the tokens that they share.
mod Caps
mod Ports
mod Endpoints
mod Desktops
mod Scheduling
mod Files
mod Addresses
mod Boots
mod Tables
mod Frames
mod Vaults
mod Games
mod Guards
mod Lines
mod Shields
mod Snapshots
mod Images
mod Interrupts
mod Segments
use whisez_os.Prelude.{ℕ, ◌≡◌, refl, true, List}
use whisez_os.Prelude.Bits.{has_all}
use whisez_os.Cap.{Capability, endpoint, permits, right_send, right_receive}

-- Rights to send, to receive and to delegate.
abbrev pub agent : Capability
agent = record { token = 7; object = endpoint 1; rights = 56 }

pub agent_sends : permits agent right_send ≡ true
unfolding permits has_all
agent_sends = refl

pub agent_receives : permits agent right_receive ≡ true
unfolding permits has_all
agent_receives = refl
