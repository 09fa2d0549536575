-- ===== src/Boot.antt =====
-- The UEFI loader: boot/spectre-boot/src. `Attest` is attest.rs and `Spd` is spd.rs, with the laws of
-- each in their children, `Glitch` is the part of glitch.rs that counts and prints, and `Main` is
-- main.rs, which puts them together.
pub mod Attest
pub mod Spd
pub mod Glitch
pub mod Main
