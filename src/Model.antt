-- ===== src/Model.antt =====
-- kirin/core/model.py: the persisted objects as records, and their methods.
mod Time
mod Navitia
mod StopUpdates
mod Circulations
mod Trips
pub mod Columns
pub mod Finding
pub mod Start
unfoldable pub use Time.*
unfoldable pub use Navitia.*
unfoldable pub use StopUpdates.*
unfoldable pub use Circulations.*
unfoldable pub use Trips.*
