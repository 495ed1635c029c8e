-- ===== src/Web.antt =====
-- web/lib: the pure logic of the demo games. Numbers that the pages only compute for display (pixels,
-- fractions of a track) are left out.
pub mod Payout
pub mod Dice
pub mod Roulette
pub mod Coinflip
pub mod DemoTee
pub mod DemoEpoch
pub mod Widget
pub mod Dashboard
