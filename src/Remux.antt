-- ===== src/Remux.antt =====
-- The remux manager of gateway/internal/remux/remux.go: one FFmpeg session per stream, a bounded
-- number of slots, and the starts that are under way. `Remux.State` holds the records, `Remux.Start`
-- and `Remux.Access` the critical sections, `Remux.Schedule` their interleavings. Times are
-- nanoseconds.
mod Names
mod Calls
mod State
mod Start
mod Access
mod Schedule
mod Rules
pub mod Slots
pub mod Registry
pub mod Launching
pub mod Agreement
pub mod Reaping
pub mod Tickets
pub mod Told
pub mod Ending
pub mod Shut
pub mod Closing
pub mod Paths
unfoldable pub use Names.*
unfoldable pub use Calls.*
unfoldable pub use State.*
unfoldable pub use Start.*
unfoldable pub use Access.*
unfoldable pub use Schedule.*
