-- ===== src/Tests.antt =====
-- Concrete runs of the theorems: instances of the base library's interfaces, and one input for
-- each theorem that has conditions or arguments.
pub mod Library
pub mod Serial
pub mod Memory
pub mod Destinations
pub mod Logger
pub mod EntryParser
pub mod Consumer
pub mod Files
pub mod Validation
pub mod Delivered
pub mod Wrapper
pub mod StdTypes
pub mod LogCall
pub mod Released
pub mod Objects
