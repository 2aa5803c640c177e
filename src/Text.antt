-- ===== src/Text.antt =====
-- Go strings: byte sequences, compared, ordered, trimmed, lowered, cut and joined.
mod Basic
mod Order
mod Space
mod Cut
mod Replace
mod Decimal
mod Quote
unfoldable pub use Basic.*
unfoldable pub use Order.*
unfoldable pub use Space.*
unfoldable pub use Cut.*
unfoldable pub use Replace.*
unfoldable pub use Decimal.*
unfoldable pub use Quote.*
