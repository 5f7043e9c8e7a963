-- ===== src/Seller.antt =====
-- src/seller: the settings of the panel that posts items to channels, and the prices that it quotes.
pub mod Config
pub mod Pricing
mod Examples
