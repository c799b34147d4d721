-- ===== src/Tests.antt =====
-- The program's parts on concrete inputs.
mod PushTests
mod PullTests
mod HandlerTests
mod ConfigTests
pub mod UploadTests
pub mod PayloadTests
pub mod RangeTests
pub mod ServiceTests
