-- ===== src/Merkle.antt =====
-- The incremental Merkle tree, for any hash: the specification as a full binary tree, and the
-- insertion loop that every pool contract runs.
mod Node
mod Climb
mod Rows
mod Log
unfoldable pub use Node.{node, empty_node}
pub use Node.{empty_node_inside}
unfoldable pub use Climb.{climb, climb_value, climb_filled}
pub use Climb.{unwrap_or, IsFilled}
pub use Rows.*
pub use Log.*
