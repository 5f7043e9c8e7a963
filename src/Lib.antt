-- ===== src/Lib.antt =====
-- A model of the trading bot's core: the state that its asynchronous tasks share, and the rules by
-- which they change it.
--
-- Every component is a record for the source's state and one function for each method, which
-- returns the new state. The clock's reading, fresh ids and the answers of servers are arguments.
--
-- How the parts meet. The loops of src/main.rs put commands into the queue and report flips that
-- they do not act on to the flip diagnostics. The loop that drives the game takes one command at a time;
-- a command that manages bazaar orders reports what the orders window shows to the bazaar tracker,
-- and one that claims auctions asks the ownership module whose a slot is. Profits go to the profit
-- tracker, and the panel reads all of them. Ownership and Bazaar clean names with Strings.
--
-- The files.
-- * Common and below: tests on numbers, lists, `i64` arithmetic that wraps, and text as lists of
--   Unicode scalar values.
-- * Types models src/types.rs.
-- * Queue models src/state/command_queue.rs.
-- * Bazaar models src/bazaar_tracker.rs.
-- * Strings models src/utils/string.rs, and the methods of text that the other parts call.
-- * Ownership models src/auction_ownership.rs.
-- * Profit models src/profit.rs.
-- * FlipDiag models src/state/flip_diag.rs.
-- * Seller, with Seller/Config and Seller/Pricing, models src/seller/config.rs and
--   src/seller/pricing.rs.
-- * Slots models src/gui/slot_manager.rs.
-- * Windows models src/gui/window_handler.rs.
-- * FlipHandler models src/handlers/flip_handler.rs.
-- * BazaarHandler models src/handlers/bazaar_flip_handler.rs, and BazaarHandler/Distance its edit
--   distance.
-- * Panel models the sessions of src/web/server.rs: login, cookies, tokens and the check of a
--   request.
-- * Bans models the part of src/webhook.rs that decides whether a ban is announced.
-- * Restart models the parts of src/main.rs that keep flips, session times and rest breaks across a
--   restart, and the profit of a tracked flip.
-- * Persistence models src/persistence.rs, with the failures of a write.
-- * Timestamps models the reading of a flip's time of purchase in src/types.rs.
-- * Websocket models the addresses and the lists of licenses of src/websocket/client.rs.
-- * Config models parts of src/config/types.rs.
-- * Session models src/session.rs and src/visitfriend.rs.
-- * Inventory models src/state/manager.rs and src/inventory/manager.rs.
-- * Ping models parts of src/hypixel_ping.rs.
--
-- Bounds and fuel. A `u64` counter that `fetch_add` raises and the `i64` totals of Profit wrap as
-- the release build does. Queue's trimming loop is given one round for each command, and each round
-- removes one; a `u64` has twenty decimal digits at most. Sizes of vectors are not bounded.
--
-- Not modelled: the game client, the handlers of chat and windows, the pages of the web panel, the
-- websocket's connection, the updater and the loader, which are mostly input and output; log lines, but for the
-- one of FlipDiag; the runtime's scheduling,
-- but for the interleavings of Queue and Persistence; elsewhere a method is one step.
pub mod Bans
pub mod Bazaar
pub mod BazaarHandler
pub mod Common
pub mod Config
pub mod FlipDiag
pub mod FlipHandler
pub mod Inventory
pub mod Ownership
pub mod Panel
pub mod Persistence
pub mod Ping
pub mod Profit
pub mod Queue
pub mod Restart
pub mod Seller
pub mod Session
pub mod Slots
pub mod Strings
pub mod Timestamps
pub mod Types
pub mod Websocket
pub mod Windows
