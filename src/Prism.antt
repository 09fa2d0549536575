-- ===== src/Prism.antt =====
-- The desktop: userland/prism/src. `Windows` is the life of windows in wm.rs with the animations of
-- anim.rs that it uses, `Budget` the governor of anim.rs, and `Categories` the list behind the menu of
-- startmenu.rs. Floats are a type `F`, with the operations of the sources as the record `Floats`.
pub mod Windows
pub mod Budget
pub mod Categories
